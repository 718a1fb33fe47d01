-- ===== src/GitDir/Access.antt =====
-- pkg/gitdir/gitdir.go: what is refused before the clone, and a directory that is for reading only.
use libgitops.Prelude.{◌≡◌, Bool, false, none, some, [], arith}
use libgitops.Prelude.Text.{Str}
use libgitops.Prelude.Outcome.{Outcome, Done, ok, err, panic, not_started}
use libgitops.GitDir.{
  GitDirectory, GitDirectoryOptions, GoGit, default, new_git_directory, suspend, resume, unlock,
  verify_read, verify_write, is_sending, receive,
}
use libgitops.GitDir.Runs.{
  Step, Run, starts, pulls, branches, returns, commits, suspends, resumes, receives, cleans, stays,
  then_step, new_git_directory-IsHeard,
}
use libgitops.GitDir.Calls.{
  guarded, with_lock, clone, clone_locked, start_checkout_loop, cleanup, pull, checkout_new_branch,
  checkout_main_branch, commit,
}

module _ {W Auth : Type 0} (g : GoGit W Auth) where
  -- Before the repository is cloned, Pull, CheckoutNewBranch, CheckoutMainBranch and Commit return
  -- ErrNotStarted and change nothing, if the mutex is not locked where Pull locks it and no send
  -- waits.
  pub before_start :
      (d : GitDirectory W Auth) (is_cancelled : Bool) (branch name email msg : Str)
      → d.has_wt ≡ false
      → is_sending d ≡ false
      → d.locked ≡ false
      → (pull g is_cancelled d ≡ some (d, err not_started))
        × (checkout_new_branch g branch d ≡ (d, err not_started))
        × (checkout_main_branch g d ≡ (d, err not_started))
        × (commit g is_cancelled name email msg d ≡ (d, err not_started))
  unfolding pull checkout_new_branch checkout_main_branch commit guarded with_lock suspend unlock
      verify_read verify_write is_sending
  before_start d is_cancelled branch name email msg h room l =
      (ground (arith, h, l, room), ground (arith, h), ground (arith, h), ground (arith, h))

  -- No authentication method, and no worktree.
  record IsIdle (d : GitDirectory W Auth) : Type 0 where
    no_auth : d.opts.auth_method ≡ none
    no_worktree : d.has_wt ≡ false

  start-cases :
      (d : GitDirectory W Auth) (r : GitDirectory W Auth × Done)
      → IsIdle d
      → start_checkout_loop g d ≡ some r
      → IsIdle r.0
  unfolding start_checkout_loop clone clone_locked with_lock suspend unlock
  start-cases d r i h = record {
    no_auth = ground (arith, i.no_auth, i.no_worktree, h);
    no_worktree = ground (arith, i.no_auth, i.no_worktree, h);
  }

  pull-cases :
      (c : Bool) (d : GitDirectory W Auth) (r : GitDirectory W Auth × Done)
      → IsIdle d
      → pull g c d ≡ some r
      → IsIdle r.0
  unfolding pull with_lock suspend unlock guarded verify_read
  pull-cases c d r i h = record {
    no_auth = ground (arith, i.no_auth, i.no_worktree, h);
    no_worktree = ground (arith, i.no_auth, i.no_worktree, h);
  }

  suspend-IsIdle : (d e : GitDirectory W Auth) → IsIdle d → suspend d ≡ some e → IsIdle e
  unfolding suspend
  suspend-IsIdle d e i h = record {
    no_auth = ground (arith, i.no_auth, h);
    no_worktree = ground (arith, i.no_worktree, h);
  }

  -- What is refused before there is a worktree leaves the state as it is.
  refused-IsIdle :
      (k : GitDirectory W Auth → GitDirectory W Auth × Done) (d : GitDirectory W Auth)
      → IsIdle d
      → IsIdle (guarded (verify_write d) k d).0
  unfolding guarded verify_write verify_read
  refused-IsIdle k d i = record {
    no_auth = ground (arith, i.no_auth, i.no_worktree);
    no_worktree = ground (arith, i.no_worktree);
  }

  resume-IsIdle : (d : GitDirectory W Auth) → IsIdle d → IsIdle (resume d).0
  unfolding resume unlock
  resume-IsIdle d i = record {
    no_auth = ground (arith, i.no_auth);
    no_worktree = ground (arith, i.no_worktree);
  }

  receive-IsIdle : (d : GitDirectory W Auth) → IsIdle d → IsIdle (receive d)
  unfolding receive
  receive-IsIdle d i = record {
    no_auth = ground (arith, i.no_auth);
    no_worktree = ground (arith, i.no_worktree);
  }

  Step-IsIdle : (d e : GitDirectory W Auth) → Step g d e → IsIdle d → IsIdle e
  unfolding checkout_new_branch checkout_main_branch commit cleanup
  Step-IsIdle d e (starts r h) i = start-cases d r i h
  Step-IsIdle d e (pulls c r h) i = pull-cases c d r i h
  Step-IsIdle d e (branches name) i = refused-IsIdle _ d i
  Step-IsIdle d e returns i = refused-IsIdle _ d i
  Step-IsIdle d e (commits c name email msg came) i = refused-IsIdle _ d i
  Step-IsIdle d e (suspends f h) i = suspend-IsIdle d f i h
  Step-IsIdle d e resumes i = resume-IsIdle d i
  Step-IsIdle d e receives i = receive-IsIdle d i
  Step-IsIdle d e cleans i = record { no_auth = i.no_auth; no_worktree = i.no_worktree }

  Run-IsIdle : (d e : GitDirectory W Auth) → Run g d e → IsIdle d → IsIdle e
  Run-IsIdle d e stays i = i
  Run-IsIdle d e (then_step run step) i = Step-IsIdle _ e step (Run-IsIdle d _ run i)

  new-IsIdle :
      (opts : GitDirectoryOptions Auth) (temp_dir : Outcome Str) (w : W) (d : GitDirectory W Auth)
      → opts.auth_method ≡ none
      → new_git_directory opts temp_dir w ≡ ok d
      → IsIdle d
  unfolding new_git_directory default
  new-IsIdle opts (ok tmp) w d a h = record {
    no_auth = ground (arith, a, h);
    no_worktree = ground (arith, h);
  }
  new-IsIdle opts (err e) w d a h = ground (arith, h)
  new-IsIdle opts panic w d a h = ground (arith, h)

  start-panic :
      (d : GitDirectory W Auth)
      → IsIdle d
      → d.locked ≡ false
      → is_sending d ≡ false
      → start_checkout_loop g d ≡ some (d, panic)
  unfolding start_checkout_loop clone clone_locked with_lock suspend unlock is_sending
  start-panic d i l room = ground (arith, i.no_auth, i.no_worktree, l, room)

  -- A new clone directory without an authentication method is never cloned: in any run there is no
  -- worktree and no commit is sent, and StartCheckoutLoop panics whenever the mutex is free.
  pub new_git_directory-read_only :
      (opts : GitDirectoryOptions Auth) (temp_dir : Outcome Str) (w : W) (d e : GitDirectory W Auth)
      → opts.auth_method ≡ none
      → new_git_directory opts temp_dir w ≡ ok d
      → Run g d e
      → (e.has_wt ≡ false)
        × (e.commit_chan ≡ [])
        × (e.locked ≡ false → start_checkout_loop g e ≡ some (e, panic))
  unfolding is_sending
  new_git_directory-read_only opts temp_dir w d e a h run =
      let idle = Run-IsIdle d e run (new-IsIdle opts temp_dir w d a h) in
      let (heard, room) = new_git_directory-IsHeard g opts temp_dir w d e h run in
      (
        idle.no_worktree,
        heard.silent idle.no_worktree,
        λ l. start-panic e idle l (ground (arith, room)),
      )

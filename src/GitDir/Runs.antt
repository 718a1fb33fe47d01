-- ===== src/GitDir/Runs.antt =====
-- pkg/gitdir/gitdir.go: runs of the operations of a `gitDirectory`, in any order, with the steps of
-- the checkout loop between them.
use libgitops.Prelude.{
  ◌+◌, ◌≤◌, length, ◌≡◌, sym, ap, ◌∙◌, subst, Bool, true, false, some, arith, Bool-cases, inl, inr,
}
use libgitops.Prelude.Text.{Str}
use libgitops.Prelude.Outcome.{Outcome, Done, ok, err, panic}
use libgitops.GitDir.{
  GitDirectory, GitDirectoryOptions, GoGit, suspend, unlock, resume, verify_read, verify_write,
  new_git_directory, is_sending, receive,
}
use libgitops.GitDir.Calls.{
  guarded, clone, clone_locked, start_checkout_loop, pull_verified, pull, checkout_new_branch,
  checkout_main_branch, commit_status, commit, cleanup,
}
use libgitops.GitDir.Commits.{
  IsHeard, last_of, verify_read_lem, verify_write_lem, guarded-IsHeard, with_world-IsHeard,
  with_lock-IsHeard, with_lock-is_sending, guarded-is_sending, clone_locked-IsHeard,
  pull_verified-IsHeard, commit_status-IsHeard,
}

module _ {W Auth : Type 0} (g : GoGit W Auth) where
  -- One operation, or a reader that receives a commit. An operation that waits for the mutex, or
  -- for room in the channel, makes its step when it comes back.
  pub data Step : GitDirectory W Auth → GitDirectory W Auth → Type 0 where
    starts :
        {d : GitDirectory W Auth} (r : GitDirectory W Auth × Done)
        → start_checkout_loop g d ≡ some r
        → Step d r.0
    pulls :
        {d : GitDirectory W Auth} (c : Bool) (r : GitDirectory W Auth × Done)
        → pull g c d ≡ some r
        → Step d r.0
    branches : {d : GitDirectory W Auth} (name : Str) → Step d (checkout_new_branch g name d).0
    returns : {d : GitDirectory W Auth} → Step d (checkout_main_branch g d).0
    commits :
        {d : GitDirectory W Auth} (c : Bool) (name email msg : Str)
        → is_sending (commit g c name email msg d).0 ≡ false
        → Step d (commit g c name email msg d).0
    suspends : {d : GitDirectory W Auth} (e : GitDirectory W Auth) → suspend d ≡ some e → Step d e
    resumes : {d : GitDirectory W Auth} → Step d (resume d).0
    receives : {d : GitDirectory W Auth} → Step d (receive d)
    cleans : {d : GitDirectory W Auth} → Step d (cleanup g d).0

  -- Some steps from the first state to the second.
  pub data Run : GitDirectory W Auth → GitDirectory W Auth → Type 0 where
    stays : {d : GitDirectory W Auth} → Run d d
    then_step : {d e f : GitDirectory W Auth} → Run d e → Step e f → Run d f

  suspend_lem : (d e : GitDirectory W Auth) → suspend d ≡ some e → e ≡ record d { locked = true }
  unfolding suspend
  suspend_lem d e h = ground (arith, h)

  resume-IsHeard : (d : GitDirectory W Auth) → IsHeard d → IsHeard (resume d).0
  unfolding resume unlock
  resume-IsHeard d i = record {
    heard = ground (arith, i.heard);
    silent = λ n. ground (arith, n, i.silent);
  }

  receive-IsHeard : (d : GitDirectory W Auth) → IsHeard d → IsHeard (receive d)
  unfolding receive
  receive-IsHeard d i = record {
    heard = ground (arith, i.heard);
    silent = λ n. ground (arith, n, i.silent);
  }

  start-IsHeard :
      (d : GitDirectory W Auth) (r : GitDirectory W Auth × Done)
      → start_checkout_loop g d ≡ some r
      → IsHeard d
      → IsHeard r.0
  unfolding start_checkout_loop clone
  start-IsHeard d r h i = elim (Bool-cases d.has_wt) [
    | inl e ↦
        let same : r ≡ (d, ok tt) = ground (arith, e, h) in subst (λ x. IsHeard x.0) (sym same) i
    | inr e ↦
        with_lock-IsHeard (clone_locked g) d r (ground (arith, e, h)) i (clone_locked-IsHeard g)
  ]

  Step-IsHeard : (d e : GitDirectory W Auth) → Step d e → IsHeard d → IsHeard e
  unfolding pull checkout_new_branch checkout_main_branch commit cleanup
  Step-IsHeard d e (starts r h) i = start-IsHeard d r h i
  Step-IsHeard d e (pulls c r h) i =
      with_lock-IsHeard (λ d1. guarded (verify_read d1) (pull_verified g c) d1) d r h i
        (λ d1 i1.
          guarded-IsHeard (verify_read d1) (pull_verified g c) d1 i1
            (λ v. pull_verified-IsHeard g c d1 (verify_read_lem d1 v) i1))
  Step-IsHeard d e (branches name) i =
      guarded-IsHeard (verify_write d) _ d i (λ v. with_world-IsHeard _ d i)
  Step-IsHeard d e returns i =
      guarded-IsHeard (verify_write d) _ d i (λ v. with_world-IsHeard _ d i)
  Step-IsHeard d e (commits c name email msg came) i =
      guarded-IsHeard (verify_write d)
        (commit_status g c name email msg (g.status_is_clean d.world)) d i
        (λ v.
          commit_status-IsHeard g c name email msg (g.status_is_clean d.world) d
            (verify_write_lem d v) i)
  Step-IsHeard d e (suspends f h) i =
      subst IsHeard (sym (suspend_lem d f h)) (record { heard = i.heard; silent = i.silent })
  Step-IsHeard d e resumes i = resume-IsHeard d i
  Step-IsHeard d e receives i = receive-IsHeard d i
  Step-IsHeard d e cleans i = record { heard = i.heard; silent = i.silent }

  Run-IsHeard : (d e : GitDirectory W Auth) → Run d e → IsHeard d → IsHeard e
  Run-IsHeard d e stays i = i
  Run-IsHeard d e (then_step run step) i = Step-IsHeard _ e step (Run-IsHeard d _ run i)

  new-IsHeard :
      (opts : GitDirectoryOptions Auth) (temp_dir : Outcome Str) (w : W) (d : GitDirectory W Auth)
      → new_git_directory opts temp_dir w ≡ ok d
      → IsHeard d
  unfolding new_git_directory last_of
  new-IsHeard opts (ok tmp) w d h = record {
    heard = ground (arith, h);
    silent = λ n. ground (arith, h);
  }
  new-IsHeard opts (err e) w d h = ground (arith, h)
  new-IsHeard opts panic w d h = ground (arith, h)

  Step-is_sending :
      (d e : GitDirectory W Auth) → Step d e → is_sending d ≡ false → is_sending e ≡ false
  unfolding pull checkout_new_branch checkout_main_branch cleanup start_checkout_loop clone receive
      resume unlock is_sending
  Step-is_sending d e (starts r h) i = elim (Bool-cases d.has_wt) [
    | inl w ↦ let same : r ≡ (d, ok tt) = ground (arith, w, h) in ap (λ x. is_sending x.0) same ∙ i
    | inr w ↦ with_lock-is_sending (clone_locked g) d r (ground (arith, w, h))
  ]
  Step-is_sending d e (pulls c r h) i =
      with_lock-is_sending (λ d1. guarded (verify_read d1) (pull_verified g c) d1) d r h
  Step-is_sending d e (branches name) i = guarded-is_sending (verify_write d) _ d i i
  Step-is_sending d e returns i = guarded-is_sending (verify_write d) _ d i i
  Step-is_sending d e (commits c name email msg came) i = came
  Step-is_sending d e (suspends f h) i = ap is_sending (suspend_lem d f h) ∙ i
  Step-is_sending d e resumes i = ground (arith, i)
  Step-is_sending d e receives i = ground (arith, i)
  Step-is_sending d e cleans i = i

  Run-is_sending :
      (d e : GitDirectory W Auth) → Run d e → is_sending d ≡ false → is_sending e ≡ false
  Run-is_sending d e stays i = i
  Run-is_sending d e (then_step run step) i = Step-is_sending _ e step (Run-is_sending d _ run i)

  new-is_sending :
      (opts : GitDirectoryOptions Auth) (temp_dir : Outcome Str) (w : W) (d : GitDirectory W Auth)
      → new_git_directory opts temp_dir w ≡ ok d
      → is_sending d ≡ false
  unfolding new_git_directory is_sending
  new-is_sending opts (ok tmp) w d h = ground (arith, h)
  new-is_sending opts (err e) w d h = ground (arith, h)
  new-is_sending opts panic w d h = ground (arith, h)

  -- In any run from a new clone directory of operations that come back, the last commit that was sent
  -- to the channel is the one that the struct knows as its last, none is sent before there is a
  -- worktree, and at most 1024 of those that were sent are not yet received.
  pub new_git_directory-IsHeard :
      (opts : GitDirectoryOptions Auth) (temp_dir : Outcome Str) (w : W) (d e : GitDirectory W Auth)
      → new_git_directory opts temp_dir w ≡ ok d
      → Run d e
      → IsHeard e × (length e.commit_chan ≤ e.received + 1024)
  unfolding is_sending
  new_git_directory-IsHeard opts temp_dir w d e h run = (
    Run-IsHeard d e run (new-IsHeard opts temp_dir w d h),
    ground (arith, Run-is_sending d e run (new-is_sending opts temp_dir w d h)),
  )

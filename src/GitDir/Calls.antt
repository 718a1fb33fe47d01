-- ===== src/GitDir/Calls.antt =====
-- pkg/gitdir/gitdir.go: the operations on the clone.
use libgitops.Prelude.{Bool, true, false, Option, none, some, if◌then◌else◌}
use libgitops.Prelude.Text.{Str, str_eq}
use libgitops.Prelude.Outcome.{Outcome, Done, ok, err, panic, git_timeout, git_failure}
use libgitops.GitDir.{
  GitDirectory, GoGit, GitError, already_up_to_date, deadline_exceeded, canceled, failed, suspend,
  unlock, verify_read, verify_write, is_sending, observe_commit, context_with_timeout, timed,
}

-- What the switch on the error of an operation says: go on, or return.
pub data Next : Type 0 where
  go_on : Next
  return_with : Done → Next

-- The switch of `clone`.
unfoldable pub clone_next : Option GitError → Next
clone_next none = go_on
clone_next (some deadline_exceeded) = return_with (err git_timeout)
clone_next (some canceled) = return_with (ok tt)
clone_next (some _) = return_with (err git_failure)

-- The switches of `Pull` and `Commit`.
unfoldable pub sync_next : Option GitError → Next
sync_next none = go_on
sync_next (some already_up_to_date) = go_on
sync_next (some deadline_exceeded) = return_with (err git_timeout)
sync_next (some canceled) = return_with (ok tt)
sync_next (some (failed e)) = return_with (err git_failure)

module _ {W Auth : Type 0} where
  -- A check that comes first, and its error returned.
  unfoldable pub guarded :
      Done
      → (GitDirectory W Auth → GitDirectory W Auth × Done)
      → GitDirectory W Auth
      → GitDirectory W Auth × Done
  guarded (ok u) k d = k d
  guarded (err e) k d = (d, err e)
  guarded panic k d = (d, panic)

  unfoldable pub settle :
      Next
      → (GitDirectory W Auth → GitDirectory W Auth × Done)
      → GitDirectory W Auth
      → GitDirectory W Auth × Done
  settle go_on k d = k d
  settle (return_with result) k d = (d, result)

  -- `lock.Lock()` and the deferred `lock.Unlock()`, unless a send to the channel waits before it.
  unfoldable pub with_lock :
      (GitDirectory W Auth → GitDirectory W Auth × Done)
      → GitDirectory W Auth
      → Option (GitDirectory W Auth × Done)
  with_lock k d = elim (suspend d) [
    | none ↦ none
    | some d1 ↦ if is_sending (k d1).0 then none else some (unlock (k d1).0, (k d1).1)
  ]

  -- The end of `clone`, after `repo.Head()`.
  unfoldable pub report_head : Outcome Str → GitDirectory W Auth → GitDirectory W Auth × Done
  report_head (ok hash) d = (observe_commit hash d, ok tt)
  report_head (err e) d = (d, err e)
  report_head panic d = (d, panic)

  -- The end of `Pull`, after `repo.Head()`.
  unfoldable pub compare_head : Outcome Str → GitDirectory W Auth → GitDirectory W Auth × Done
  compare_head (ok hash) d = (if str_eq d.last_commit hash then d else observe_commit hash d, ok tt)
  compare_head (err e) d = (d, err e)
  compare_head panic d = (d, panic)

module _ {W Auth : Type 0} (g : GoGit W Auth) where
  -- The end of `clone`, after `repo.Worktree()`.
  unfoldable pub set_worktree : Done → GitDirectory W Auth → GitDirectory W Auth × Done
  set_worktree (ok u) d = report_head (g.head d.world) (record d { has_wt = true })
  set_worktree (err e) d = (d, err git_failure)
  set_worktree panic d = (d, panic)

  -- `clone` with the mutex locked: `cloneURL` calls a method of `AuthMethod`, which panics if that
  -- is nil.
  unfoldable pub clone_locked : GitDirectory W Auth → GitDirectory W Auth × Done
  clone_locked d = elim d.opts.auth_method [
    | none ↦ (d, panic)
    | some a ↦
        let r = g.plain_clone (timed d.is_cancelled d) (some a) d.opts.branch d.world in
        settle (clone_next (context_with_timeout r)) (set_worktree (g.worktree r.world))
          (record d { world = r.world })
  ]

  -- `clone`
  unfoldable pub clone : GitDirectory W Auth → Option (GitDirectory W Auth × Done)
  clone d = with_lock clone_locked d

  -- `StartCheckoutLoop`, without the loop that it starts in the end.
  unfoldable pub start_checkout_loop : GitDirectory W Auth → Option (GitDirectory W Auth × Done)
  start_checkout_loop d = if d.has_wt then some (d, ok tt) else clone d

  unfoldable pub pull_verified : Bool → GitDirectory W Auth → GitDirectory W Auth × Done
  pull_verified is_cancelled d =
      let r = g.pull (timed is_cancelled d) d.opts.auth_method d.world in
      settle (sync_next (context_with_timeout r)) (compare_head (g.head r.world))
        (record d { world = r.world })

  -- `Pull`, with a context that is cancelled or not.
  unfoldable pub pull : Bool → GitDirectory W Auth → Option (GitDirectory W Auth × Done)
  pull is_cancelled d = with_lock (λ d1. guarded (verify_read d1) (pull_verified is_cancelled) d1) d

  -- One round of `checkoutLoop`, whose errors are only logged.
  unfoldable pub checkout_loop_step : GitDirectory W Auth → Option (GitDirectory W Auth)
  checkout_loop_step d =
      if d.is_cancelled
      then some d
      else elim (pull d.is_cancelled d) [ none ↦ none | some r ↦ some r.0 ]

  -- `CheckoutNewBranch`
  unfoldable pub checkout_new_branch : Str → GitDirectory W Auth → GitDirectory W Auth × Done
  checkout_new_branch name d =
      guarded (verify_write d)
        (λ d1.
          let (w, result) = g.checkout_create name d1.world in (record d1 { world = w }, result))
        d

  -- `CheckoutMainBranch`
  unfoldable pub checkout_main_branch : GitDirectory W Auth → GitDirectory W Auth × Done
  checkout_main_branch d =
      guarded (verify_write d)
        (λ d1.
          let (w, result) = g.checkout_force d1.opts.branch (g.clean d1.world) in
          (record d1 { world = w }, result))
        d

  -- The end of `Commit`, after `wt.Commit`.
  unfoldable pub push_commit : Bool → Outcome Str → GitDirectory W Auth → GitDirectory W Auth × Done
  push_commit is_cancelled (ok hash) d =
      let r = g.push (timed is_cancelled d) d.opts.auth_method d.world in
      settle (sync_next (context_with_timeout r)) (report_head (ok hash))
        (record d { world = r.world })
  push_commit is_cancelled (err e) d = (d, err git_failure)
  push_commit is_cancelled panic d = (d, panic)

  -- `Commit` after `wt.Status`.
  unfoldable pub commit_status :
      Bool → Str → Str → Str → Outcome Bool → GitDirectory W Auth → GitDirectory W Auth × Done
  commit_status is_cancelled name email msg (ok true) d = (d, ok tt)
  commit_status is_cancelled name email msg (ok false) d =
      let (w, committed) = g.commit_all name email msg d.world in
      push_commit is_cancelled committed (record d { world = w })
  commit_status is_cancelled name email msg (err e) d = (d, err git_failure)
  commit_status is_cancelled name email msg panic d = (d, panic)

  -- `Commit`, which comes back if the state is not `is_sending` then.
  unfoldable pub commit : Bool → Str → Str → Str → GitDirectory W Auth → GitDirectory W Auth × Done
  commit is_cancelled name email msg d =
      guarded (verify_write d)
        (commit_status is_cancelled name email msg (g.status_is_clean d.world)) d

  -- `Cleanup`
  unfoldable pub cleanup : GitDirectory W Auth → GitDirectory W Auth × Done
  cleanup d =
      let (w, result) = g.remove_all d.clone_dir d.world in
      (record d { is_cancelled = true; world = w }, result)

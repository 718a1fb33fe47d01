-- ===== src/Transaction.antt =====
-- pkg/storage/transaction/git.go: `Transaction`, over the operations of `GitDir`. The function that
-- is run in the transaction changes the world, which holds the files of the clone. The provider of
-- pull requests has a state of its own.
pub mod Results
pub mod Mappings
pub mod Loop
pub mod Kept
pub mod Laws
pub mod Ends
pub mod Abort
use libgitops.Prelude.{Bool, true, false, Option, none, some, ◌++◌, if◌then◌else◌}
use libgitops.Prelude.Text.{Str, bytes, has_suffix}
use libgitops.Prelude.Outcome.{Outcome, Done, ok, err, panic, ◌>>=◌, no_pull_request_provider}
use libgitops.GitDir.{GitDirectory, GoGit, suspend, resume, is_sending}
use libgitops.GitDir.Calls.{pull, checkout_new_branch, checkout_main_branch, commit}
use libgitops.Transaction.Results.{
  TransactionResult, commit_result, pull_request_result, CommitResult, PullRequestSpec, commit_of,
  get_message, validate_result,
}

-- The start of `Transaction`: `random` is the result of `util.RandomSHA(4)`.
unfoldable pub stream_of : Outcome Str → Str → Outcome Str
stream_of random name =
    if has_suffix name (bytes "-") then (do suffix ← random; ok (name ++ suffix)) else ok name

-- The arguments of a transaction: the library, the context, the provider and the function.
pub record Setting (W Auth P : Type 0) : Type 0 where
  pub git : GoGit W Auth
  pub is_cancelled : Bool
  pub provider : Option (PullRequestSpec → P → P × Done)
  pub fn : W → W × Outcome TransactionResult

module _ {W Auth P : Type 0} (s : Setting W Auth P) where
  -- The end of `Transaction`: a pull request, if one is asked for.
  unfoldable pub open_pull_request :
      Str → Done → TransactionResult → GitDirectory W Auth → P → (GitDirectory W Auth × P) × Done
  open_pull_request stream (err e) result d p = ((d, p), err e)
  open_pull_request stream panic result d p = ((d, p), panic)
  open_pull_request stream (ok u) (commit_result r) d p = ((d, p), ok tt)
  open_pull_request stream (ok u) (pull_request_result r) d p = elim s.provider [
    | none ↦ ((d, p), err no_pull_request_provider)
    | some create ↦
        let (p1, result) =
          create
            (record {
              result = r;
              main_branch = d.opts.branch;
              merge_branch = stream;
              has_repository_ref = true;
            })
            p in
        ((d, p1), result)
  ]

  -- The commit, after the result is validated.
  unfoldable pub commit_valid :
      Str → Done → TransactionResult → GitDirectory W Auth → P → (GitDirectory W Auth × P) × Done
  commit_valid stream (err e) result d p = ((d, p), err e)
  commit_valid stream panic result d p = ((d, p), panic)
  commit_valid stream (ok u) result d p =
      let r = commit_of result in
      let (d1, committed) =
        commit s.git s.is_cancelled r.author_name r.author_email (get_message r) d in
      open_pull_request stream committed result d1 p

  -- What follows `fn`.
  unfoldable pub handle_result :
      Str → Outcome TransactionResult → GitDirectory W Auth → P → (GitDirectory W Auth × P) × Done
  handle_result stream (err e) d p = ((d, p), err e)
  handle_result stream panic d p = ((d, p), panic)
  handle_result stream (ok result) d p = commit_valid stream (validate_result result) result d p

  -- What follows `CheckoutNewBranch`.
  unfoldable pub invoke : Str → Done → GitDirectory W Auth → P → (GitDirectory W Auth × P) × Done
  invoke stream (err e) d p = ((d, p), err e)
  invoke stream panic d p = ((d, p), panic)
  invoke stream (ok u) d p =
      let (w, o) = s.fn d.world in handle_result stream o (record d { world = w }) p

  -- The deferred calls, the last one first: back to the main branch, whose error is dropped, and
  -- then the mutex is unlocked.
  unfoldable pub deferred : (GitDirectory W Auth × P) × Done → (GitDirectory W Auth × P) × Done
  deferred ((d, p), result) =
      let (d1, ignored) = checkout_main_branch s.git d in
      let (d2, resumed) = resume d1 in ((d2, p), elim resumed [ panic ↦ panic | _ ↦ result ])

  -- `Transaction` from `Suspend` on. It waits for the mutex, and in `Commit` for room in the commit
  -- channel, which comes before the deferred calls.
  unfoldable pub suspended :
      Str → GitDirectory W Auth → P → Option ((GitDirectory W Auth × P) × Done)
  suspended stream d p = elim (suspend d) [
    | none ↦ none
    | some d1 ↦
        let (d2, checked_out) = checkout_new_branch s.git stream d1 in
        let ended = invoke stream checked_out d2 p in
        if is_sending ended.0.0 then none else some (deferred ended)
  ]

  -- What follows `Pull`.
  unfoldable pub after_pull :
      Str → Option (GitDirectory W Auth × Done) → P → Option ((GitDirectory W Auth × P) × Done)
  after_pull stream none p = none
  after_pull stream (some (d, ok u)) p = suspended stream d p
  after_pull stream (some (d, err e)) p = some ((d, p), err e)
  after_pull stream (some (d, panic)) p = some ((d, p), panic)

  -- `Transaction`
  unfoldable pub transaction :
      Outcome Str → Str → GitDirectory W Auth → P → Option ((GitDirectory W Auth × P) × Done)
  transaction random name d p = elim (stream_of random name) [
    | err e ↦ some ((d, p), err e)
    | panic ↦ some ((d, p), panic)
    | ok stream ↦ after_pull stream (pull s.git s.is_cancelled d) p
  ]

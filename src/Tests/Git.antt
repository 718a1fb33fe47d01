-- ===== src/Tests/Git.antt =====
-- A small concrete Git, and the theorems on clones and transactions at it.
use libgitops.Prelude.{
  arith, length, ◌≤◌, ◌+◌, ap, sym, ℕ, ◌≡◌, refl, Bool, true, false, Option, none, some, [], ◌∷◌,
  inr,
}
use libgitops.Prelude.Text.{Str, bytes, has_suffix}
use libgitops.Prelude.Outcome.{Outcome, Done, ok, err, panic, not_started, invalid_result}
use libgitops.GitDir.{
  GitDirectory, GitDirectoryOptions, GoGit, Ran, new_git_directory, context_with_timeout,
  verify_write, suspend, unlock, verify_read, observe_commit, is_sending, receive, default,
}
use libgitops.GitDir.Calls.{
  start_checkout_loop, clone, with_lock, clone_locked, settle, clone_next, set_worktree,
  report_head, guarded, pull_verified, sync_next, compare_head, pull, checkout_new_branch,
  checkout_main_branch, commit,
}
use libgitops.GitDir.Access.{before_start, new_git_directory-read_only}
use libgitops.GitDir.Commits.{IsHeard}
use libgitops.GitDir.Runs.{stays, then_step, starts, receives, new_git_directory-IsHeard}
use libgitops.Transaction.Results.{TransactionResult, commit_result, validate_result}
use libgitops.Transaction.{Setting, transaction, stream_of}
use libgitops.Transaction.Ends.{BackOnMain, EndsFree, transaction-EndsFree, transaction-main}
use libgitops.Transaction.Abort.{rolled_back, transaction-abort}

-- A repository with the branch that is checked out and its head.
record Repository : Type 0 where
  branch : Str
  head : Str
  is_clean : Bool

abbrev ran : Repository → Ran Repository
ran w = record { world = w; fn_err = none; ctx_err = none }

abbrev git : GoGit Repository ℕ
git = record {
  plain_clone = λ c a branch w. ran (record w { branch = branch });
  worktree = λ w. ok tt;
  head = λ w. ok w.head;
  pull = λ c a w. ran (record w { head = bytes "b2" });
  clean = λ w. record w { is_clean = true };
  checkout_create = λ branch w. (record w { branch = branch }, ok tt);
  checkout_force = λ branch w. (record w { branch = branch; is_clean = true }, ok tt);
  status_is_clean = λ w. ok w.is_clean;
  commit_all = λ name email msg w. (record w { head = msg; is_clean = true }, ok msg);
  push = λ c a w. ran w;
  remove_all = λ dir w. (w, ok tt);
}

abbrev origin : Repository
origin = record { branch = bytes "x"; head = bytes "a1"; is_clean = true }

abbrev options : Option ℕ → GitDirectoryOptions ℕ
options auth = record { branch = bytes "main"; interval = 30; timeout = 60; auth_method = auth }

-- A directory before the clone, and a clone, with or without authentication.
abbrev fresh : Option ℕ → GitDirectory Repository ℕ
fresh auth = record {
  opts = options auth;
  clone_dir = bytes "/tmp/c";
  has_wt = false;
  last_commit = [];
  commit_chan = [];
  received = 0;
  is_cancelled = false;
  locked = false;
  world = origin;
}

abbrev cloned : Option ℕ → GitDirectory Repository ℕ
cloned auth = record (fresh auth) {
  has_wt = true;
  last_commit = bytes "a1";
  commit_chan = bytes "a1" ∷ [];
  world = record origin { branch = bytes "main" };
}

abbrev pulled_clone : GitDirectory Repository ℕ
pulled_clone = record (cloned (some 1)) {
  last_commit = bytes "b2";
  commit_chan = bytes "a1" ∷ bytes "b2" ∷ [];
  world = record { branch = bytes "main"; head = bytes "b2"; is_clean = true };
}

no_send : (d : GitDirectory Repository ℕ) → d.commit_chan ≡ [] → is_sending d ≡ false
unfolding is_sending
no_send d h = ground (arith, h)

before_start_example :
    (pull git false (fresh none) ≡ some (fresh none, err not_started))
    × (checkout_new_branch git (bytes "b") (fresh none) ≡ (fresh none, err not_started))
    × (checkout_main_branch git (fresh none) ≡ (fresh none, err not_started))
    × (commit git false (bytes "n") (bytes "e") (bytes "m") (fresh none)
        ≡ (fresh none, err not_started))
before_start_example =
    before_start git (fresh none) false (bytes "b") (bytes "n") (bytes "e") (bytes "m") refl
      (no_send (fresh none) refl) refl

fresh_made :
    (auth : Option ℕ)
    → new_git_directory (options auth) (ok (bytes "/tmp/c")) origin ≡ ok (fresh auth)
unfolding new_git_directory default
fresh_made auth = refl

cloning : start_checkout_loop git (fresh (some 1)) ≡ some (cloned (some 1), ok tt)
unfolding start_checkout_loop clone with_lock suspend unlock clone_locked settle clone_next
    context_with_timeout set_worktree report_head observe_commit is_sending
cloning = refl

-- A clone whose head a reader receives.
new_git_directory-IsHeard_example :
    IsHeard (receive (cloned (some 1)))
    × (length (receive (cloned (some 1))).commit_chan ≤ (receive (cloned (some 1))).received + 1024)
new_git_directory-IsHeard_example =
    new_git_directory-IsHeard git (options (some 1)) (ok (bytes "/tmp/c")) origin (fresh (some 1))
      (receive (cloned (some 1))) (fresh_made (some 1))
      (then_step (then_step stays (starts (cloned (some 1), ok tt) cloning)) receives)

no_clone : start_checkout_loop git (fresh none) ≡ some (fresh none, panic)
unfolding start_checkout_loop clone with_lock suspend unlock clone_locked is_sending
no_clone = refl

new_git_directory-read_only_example :
    ((fresh none).has_wt ≡ false)
    × ((fresh none).commit_chan ≡ [])
    × ((fresh none).locked ≡ false
        → start_checkout_loop git (fresh none) ≡ some (fresh none, panic))
new_git_directory-read_only_example =
    new_git_directory-read_only git (options none) (ok (bytes "/tmp/c")) origin (fresh none)
      (fresh none) refl (fresh_made none) (then_step stays (starts (fresh none, panic) no_clone))

-- A function that writes a file and gives a result with no title.
abbrev untitled : Repository → Repository × Outcome TransactionResult
untitled w = (
  record w { is_clean = false },
  ok (
      commit_result (record {
        author_name = bytes "n";
        author_email = bytes "e";
        title = [];
        description = [];
      })),
)

abbrev setting : Setting Repository ℕ ℕ
setting = record { git = git; is_cancelled = false; provider = none; fn = untitled }

transaction-EndsFree_example :
    EndsFree setting (transaction setting (ok (bytes "ab")) (bytes "b-") (cloned (some 1)) 0)
transaction-EndsFree_example =
    transaction-EndsFree setting (ok (bytes "ab")) (bytes "b-") (cloned (some 1)) 0 refl
      (omega arith)

streamed : stream_of (ok (bytes "ab")) (bytes "b-") ≡ ok (bytes "b-ab")
unfolding stream_of has_suffix
streamed = refl

may_write : verify_write (cloned (some 1)) ≡ ok tt
unfolding verify_write
may_write = refl

may_write_pulled : verify_write pulled_clone ≡ ok tt
unfolding verify_write
may_write_pulled = refl

pulling : pull git false (cloned (some 1)) ≡ some (pulled_clone, ok tt)
unfolding pull with_lock suspend unlock guarded verify_read pull_verified settle sync_next
    context_with_timeout compare_head observe_commit is_sending
pulling = refl

untitled_invalid :
    validate_result (
      commit_result (record {
        author_name = bytes "n";
        author_email = bytes "e";
        title = [];
        description = [];
      }))
    ≡ err invalid_result
unfolding validate_result
untitled_invalid = refl

-- The state that the transaction leaves.
abbrev after_untitled : (GitDirectory Repository ℕ × ℕ) × Done
after_untitled = (
  (
    rolled_back setting (record { branch = bytes "b-ab"; head = bytes "b2"; is_clean = false })
        pulled_clone,
    0,
  ),
  err invalid_result,
)

git_forced :
    (branch : Str) (w w' : Repository)
    → ◌≡◌ {A = Repository × Done} (record w { branch = branch; is_clean = true }, ok tt) (w', ok tt)
    → w'.branch ≡ branch
git_forced branch w w' h = ap (λ x. x.0.branch) (sym h)

transaction-abort_example :
    transaction setting (ok (bytes "ab")) (bytes "b-") (cloned (some 1)) 0
    ≡ some (
      (
        rolled_back setting
            (record { branch = bytes "b-ab"; head = bytes "b2"; is_clean = false })
            pulled_clone,
        0,
      ),
      err invalid_result,
    )
transaction-abort_example =
    transaction-abort setting (ok (bytes "ab")) (bytes "b-") (bytes "b-ab") (cloned (some 1))
      pulled_clone 0 (record { branch = bytes "b-ab"; head = bytes "b2"; is_clean = true })
      (record { branch = bytes "b-ab"; head = bytes "b2"; is_clean = false })
      (ok (
        commit_result (record {
          author_name = bytes "n";
          author_email = bytes "e";
          title = [];
          description = [];
        })))
      invalid_result streamed pulling refl may_write_pulled refl refl
      (inr (
        commit_result (record {
          author_name = bytes "n";
          author_email = bytes "e";
          title = [];
          description = [];
        }),
        refl,
        untitled_invalid,
      ))

transaction-main_example :
    BackOnMain setting (λ w. w.branch) (bytes "main") after_untitled.0.0.world
transaction-main_example =
    transaction-main setting (λ w. w.branch) git_forced (ok (bytes "ab")) (bytes "b-")
      (bytes "b-ab") (cloned (some 1)) pulled_clone 0 after_untitled may_write streamed pulling
      transaction-abort_example

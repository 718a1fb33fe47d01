-- ===== src/Transaction/Laws.antt =====
-- pkg/storage/transaction/git.go: how a transaction ends.
use libgitops.Prelude.{Bool-cases, inl, inr, ◌≡◌, true, false, some, arith}
use libgitops.Prelude.Text.{Str}
use libgitops.Prelude.Outcome.{Outcome, Done, ok, err, panic}
use libgitops.GitDir.{GitDirectory, suspend, resume, unlock, is_sending}
use libgitops.GitDir.Calls.{checkout_new_branch, checkout_main_branch, commit}
use libgitops.Transaction.Results.{
  TransactionResult, commit_result, pull_request_result, commit_of, get_message, validate_result,
}
use libgitops.Transaction.{
  Setting, open_pull_request, commit_valid, handle_result, invoke, deferred, suspended,
}
use libgitops.Transaction.Kept.{
  Kept, Kept-refl, Kept-trans, checkout_new_branch-Kept, checkout_main_branch-Kept, commit-Kept,
}

module _ {W Auth P : Type 0} (s : Setting W Auth P) (stream : Str) where
  open_pull_request-Kept :
      (c : Done) (r : TransactionResult) (d : GitDirectory W Auth) (p : P)
      → Kept 0 d (open_pull_request s stream c r d p).0.0
  unfolding open_pull_request
  open_pull_request-Kept (err e) r d p = Kept-refl 0 d
  open_pull_request-Kept panic r d p = Kept-refl 0 d
  open_pull_request-Kept (ok u) (commit_result r) d p = Kept-refl 0 d
  open_pull_request-Kept (ok u) (pull_request_result r) d p = record {
    opts = ground arith;
    has_wt = ground arith;
    locked = ground arith;
    received = ground arith;
    sent = ground arith;
  }

  commit_valid-Kept :
      (v : Done) (r : TransactionResult) (d : GitDirectory W Auth) (p : P)
      → Kept 1 d (commit_valid s stream v r d p).0.0
  unfolding commit_valid
  commit_valid-Kept (err e) r d p = Kept-refl 1 d
  commit_valid-Kept panic r d p = Kept-refl 1 d
  commit_valid-Kept (ok u) r d p =
      let c = commit_of r in
      let o = commit s.git s.is_cancelled c.author_name c.author_email (get_message c) d in
      Kept-trans 1 0 d o.0 _
        (commit-Kept s.git s.is_cancelled c.author_name c.author_email (get_message c) d)
        (open_pull_request-Kept o.1 r o.0 p)

  handle_result-Kept :
      (o : Outcome TransactionResult) (d : GitDirectory W Auth) (p : P)
      → Kept 1 d (handle_result s stream o d p).0.0
  unfolding handle_result
  handle_result-Kept (err e) d p = Kept-refl 1 d
  handle_result-Kept panic d p = Kept-refl 1 d
  handle_result-Kept (ok r) d p = commit_valid-Kept (validate_result r) r d p

  invoke-Kept : (c : Done) (d : GitDirectory W Auth) (p : P) → Kept 1 d (invoke s stream c d p).0.0
  unfolding invoke
  invoke-Kept (err e) d p = Kept-refl 1 d
  invoke-Kept panic d p = Kept-refl 1 d
  invoke-Kept (ok u) d p =
      let r = s.fn d.world in
      let i = handle_result-Kept r.1 (record d { world = r.0 }) p in
      record {
        opts = i.opts;
        has_wt = i.has_wt;
        locked = i.locked;
        received = i.received;
        sent = i.sent;
      }

  -- The deferred calls after a state whose mutex is locked.
  deferred_lem :
      (x : (GitDirectory W Auth × P) × Done)
      → x.0.0.locked ≡ true
      → deferred s x ≡ ((unlock (checkout_main_branch s.git x.0.0).0, x.0.1), x.1)
  unfolding deferred resume
  deferred_lem ((d, p), result) l =
      let k = checkout_main_branch-Kept s.git d in ground (arith, l, k.locked)

  -- What comes between the checkout of the branch and the deferred calls.
  unfoldable pub middle : GitDirectory W Auth → P → (GitDirectory W Auth × P) × Done
  middle d p =
      let r = checkout_new_branch s.git stream (record d { locked = true }) in
      invoke s stream r.1 r.0 p

  pub middle-Kept :
      (d : GitDirectory W Auth) (p : P) → Kept 1 (record d { locked = true }) (middle d p).0.0
  unfolding middle
  middle-Kept d p =
      let d1 = record d { locked = true } in
      let r = checkout_new_branch s.git stream d1 in
      Kept-trans 0 1 d1 r.0 _ (checkout_new_branch-Kept s.git stream d1) (invoke-Kept r.1 r.0 p)

  pub suspended_lem :
      (d : GitDirectory W Auth) (p : P)
      → d.locked ≡ false
      → is_sending (middle d p).0.0 ≡ false
      → suspended s stream d p
        ≡ some (
          (unlock (checkout_main_branch s.git (middle d p).0.0).0, (middle d p).0.1),
          (middle d p).1,
        )
  unfolding suspended suspend middle
  suspended_lem d p l room =
      let m = middle-Kept d p in ground (arith, l, deferred_lem (middle d p) m.locked)

  -- The end of a transaction that comes back.
  pub suspended-some :
      (d : GitDirectory W Auth) (p : P) (r : (GitDirectory W Auth × P) × Done)
      → d.locked ≡ false
      → suspended s stream d p ≡ some r
      → r ≡ (
        (unlock (checkout_main_branch s.git (middle d p).0.0).0, (middle d p).0.1),
        (middle d p).1,
      )
  unfolding suspended suspend middle
  suspended-some d p r l h = elim (Bool-cases (is_sending (middle d p).0.0)) [
    | inl full ↦ absurd (ground (arith, l, full, h))
    | inr room ↦ ground (arith, suspended_lem d p l room, h)
  ]

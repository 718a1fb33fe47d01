-- ===== src/Transaction/Abort.antt =====
-- pkg/storage/transaction/git.go: a transaction that is given up, and one that asks for a pull request.
use libgitops.Prelude.{◌≡◌, ap, ◌∙◌, refl, true, false, some, arith, ◌⊎◌, inl, inr}
use libgitops.Prelude.Text.{Str}
use libgitops.Prelude.Outcome.{Outcome, Error, Done, ok, err}
use libgitops.GitDir.{GitDirectory, unlock, verify_write, is_sending}
use libgitops.GitDir.Calls.{guarded, pull, checkout_new_branch, checkout_main_branch}
use libgitops.Transaction.Results.{TransactionResult, validate_result}
use libgitops.Transaction.{
  Setting, stream_of, commit_valid, handle_result, invoke, after_pull, transaction,
}
use libgitops.Transaction.Kept.{verify_write-Kept, pull-is_sending}
use libgitops.Transaction.Laws.{middle, suspended_lem}

module _ {W Auth P : Type 0} (s : Setting W Auth P) where
  -- A checkout of a new branch where writing is allowed.
  checkout_new_branch_lem :
      (stream : Str) (d : GitDirectory W Auth) (w1 : W) (result : Done)
      → verify_write d ≡ ok tt
      → s.git.checkout_create stream d.world ≡ (w1, result)
      → checkout_new_branch s.git stream d ≡ (record d { world = w1 }, result)
  unfolding checkout_new_branch guarded
  checkout_new_branch_lem stream d w1 result v c = ground (arith, v, c)

  pub checkout_main_branch_lem :
      (d : GitDirectory W Auth)
      → verify_write d ≡ ok tt
      → checkout_main_branch s.git d ≡ (
          let (w, result) = s.git.checkout_force d.opts.branch (s.git.clean d.world) in
          (record d { world = w }, result))
  unfolding checkout_main_branch guarded
  checkout_main_branch_lem d v = ground (arith, v)

  handle_result-rejected :
      (stream : Str) (o : Outcome TransactionResult) (error : Error) (d : GitDirectory W Auth)
      (p : P)
      → (o ≡ err error) ⊎ ((r : TransactionResult) × (o ≡ ok r) × (validate_result r ≡ err error))
      → handle_result s stream o d p ≡ ((d, p), err error)
  unfolding handle_result commit_valid
  handle_result-rejected stream o error d p (inl h) = ground (arith, h)
  handle_result-rejected stream o error d p (inr (r, h, v)) = ground (arith, h, v)

  middle-rejected :
      (stream : Str) (e : GitDirectory W Auth) (p : P) (w1 w2 : W) (o : Outcome TransactionResult)
      (error : Error)
      → verify_write e ≡ ok tt
      → s.git.checkout_create stream e.world ≡ (w1, ok tt)
      → s.fn w1 ≡ (w2, o)
      → (o ≡ err error) ⊎ ((r : TransactionResult) × (o ≡ ok r) × (validate_result r ≡ err error))
      → middle s stream e p ≡ ((record e { locked = true; world = w2 }, p), err error)
  unfolding middle invoke
  middle-rejected stream e p w1 w2 o error v c f x = ground (
    arith,
    f,
    checkout_new_branch_lem stream (record e { locked = true }) w1 (ok tt)
        (verify_write-Kept e (record e { locked = true }) refl refl v) c,
    handle_result-rejected stream o error (record e { locked = true; world = w2 }) p x,
  )

  -- The state after a transaction whose function has run, with the world that it has left.
  unfoldable pub rolled_back : W → GitDirectory W Auth → GitDirectory W Auth
  rolled_back w d = record d {
    locked = false;
    world = (s.git.checkout_force d.opts.branch (s.git.clean w)).0;
  }

  -- If the function of a transaction returns an error, or a result that is not valid, then nothing
  -- is committed, pushed or proposed: the transaction returns that error, the provider's state is as
  -- before, and the world is the function's with the main branch checked out by force.
  pub transaction-abort :
      (random : Outcome Str) (name stream : Str) (d e : GitDirectory W Auth) (p : P) (w1 w2 : W)
      (o : Outcome TransactionResult) (error : Error)
      → stream_of random name ≡ ok stream
      → pull s.git s.is_cancelled d ≡ some (e, ok tt)
      → e.locked ≡ false
      → verify_write e ≡ ok tt
      → s.git.checkout_create stream e.world ≡ (w1, ok tt)
      → s.fn w1 ≡ (w2, o)
      → (o ≡ err error) ⊎ ((r : TransactionResult) × (o ≡ ok r) × (validate_result r ≡ err error))
      → transaction s random name d p ≡ some ((rolled_back w2 e, p), err error)
  unfolding transaction after_pull unlock rolled_back is_sending
  transaction-abort random name stream d e p w1 w2 o error h pulled l v c f x =
      let d1 = record e { locked = true; world = w2 } in
      let rejected = middle-rejected stream e p w1 w2 o error v c f x in
      ground (
        arith,
        h,
        pulled,
        suspended_lem s stream e p l (
            ap (λ m. is_sending m.0.0) rejected
            ∙ pull-is_sending s.git s.is_cancelled d (e, ok tt) pulled),
        rejected,
        checkout_main_branch_lem d1 (verify_write-Kept e d1 refl refl v),
      )

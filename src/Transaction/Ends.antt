-- ===== src/Transaction/Ends.antt =====
-- pkg/storage/transaction/git.go: how a transaction ends.
use libgitops.Prelude.{
  ◌+◌, ◌≤◌, length, ◌⊎◌, ◌≢◌, true, ◌≡◌, refl, sym, ◌∙◌, ap, subst, false, Option, some, arith, inl,
  inr,
}
use libgitops.Prelude.Text.{Str}
use libgitops.Prelude.Outcome.{Outcome, Outcome-cases, Done, ok, err, panic}
use libgitops.GitDir.{GitDirectory, unlock, verify_write}
use libgitops.GitDir.Calls.{pull, checkout_main_branch}
use libgitops.Transaction.{Setting, stream_of, suspended, after_pull, transaction}
use libgitops.Transaction.Kept.{Kept-is_sending, verify_write-Kept, pull-Kept, pull-back}
use libgitops.Transaction.Abort.{checkout_main_branch_lem}
use libgitops.Transaction.Laws.{middle, middle-Kept, suspended_lem, suspended-some}

module _ {W Auth P : Type 0} (s : Setting W Auth P) where
  -- A transaction has ended with a mutex that is free.
  abbrev pub EndsFree : Option ((GitDirectory W Auth × P) × Done) → Type 0
  EndsFree o = (r : (GitDirectory W Auth × P) × Done) × (o ≡ some r) × (r.0.0.locked ≡ false)

  suspended-EndsFree :
      (stream : Str) (d : GitDirectory W Auth) (p : P)
      → d.locked ≡ false
      → length d.commit_chan + 1 ≤ d.received + 1024
      → EndsFree (suspended s stream d p)
  unfolding unlock
  suspended-EndsFree stream d p l room = (
    _,
    suspended_lem s stream d p l (
        Kept-is_sending 1 (record d { locked = true }) (middle s stream d p).0.0
          (middle-Kept s stream d p) room),
    refl,
  )

  after_pull-EndsFree :
      (stream : Str) (d : GitDirectory W Auth) (result : Done) (p : P)
      → d.locked ≡ false
      → length d.commit_chan + 1 ≤ d.received + 1024
      → EndsFree (after_pull s stream (some (d, result)) p)
  unfolding after_pull
  after_pull-EndsFree stream d (ok u) p l room = suspended-EndsFree stream d p l room
  after_pull-EndsFree stream d (err e) p l room = (((d, p), err e), refl, l)
  after_pull-EndsFree stream d panic p l room = (((d, p), panic), refl, l)

  -- A transaction that runs alone on a clone whose mutex is free, with room for two commits in the
  -- channel, comes back, waiting neither for the mutex nor for the channel, and leaves the mutex
  -- free, whatever fails in it.
  pub transaction-EndsFree :
      (random : Outcome Str) (name : Str) (d : GitDirectory W Auth) (p : P)
      → d.locked ≡ false
      → length d.commit_chan + 2 ≤ d.received + 1024
      → EndsFree (transaction s random name d p)
  unfolding transaction
  transaction-EndsFree random name d p l room = elim (Outcome-cases (stream_of random name)) [
    | inl (stream, h) ↦
        let (e, result, pulled, k) = pull-Kept s.git s.is_cancelled d l (omega (arith, room)) in
        let (r, reached, free) =
          after_pull-EndsFree stream e result p (k.locked ∙ l)
            (omega (arith, k.received, k.sent, room)) in
        (r, ground (arith, h, pulled, reached), free)
    | inr (inl (e, h)) ↦ (((d, p), err e), ground (arith, h), l)
    | inr (inr h) ↦ (((d, p), panic), ground (arith, h), l)
  ]

  -- How the checkout of the main branch comes out in the end: it is checked out, or the checkout
  -- has failed.
  unfoldable pub BackOnMain : (W → Str) → Str → W → Type 0
  BackOnMain branch_of main after =
      (branch_of after ≡ main)
      ⊎ ((w : W) × (failed : Done) × (s.git.checkout_force main (s.git.clean w) ≡ (after, failed))
          × (failed ≢ ok tt))

  forced-BackOnMain :
      (branch_of : W → Str)
      → ((branch : Str) (w w' : W)
          → s.git.checkout_force branch w ≡ (w', ok tt)
          → branch_of w' ≡ branch)
      → (main : Str) (w after : W) (o : Done)
      → s.git.checkout_force main (s.git.clean w) ≡ (after, o)
      → BackOnMain branch_of main after
  unfolding BackOnMain
  forced-BackOnMain branch_of forced main w after (ok u) h =
      inl (forced main (s.git.clean w) after h)
  forced-BackOnMain branch_of forced main w after (err e) h = inr (w, err e, h, λ same. cc)
  forced-BackOnMain branch_of forced main w after panic h = inr (w, panic, h, λ same. cc)

  -- After a transaction that comes back and whose pull has succeeded, in a clone that may be written
  -- to, the main branch is checked out, whatever has failed after the pull, if a forced checkout of
  -- a branch that returns no error leads to it; or that last checkout itself has failed.
  pub transaction-main :
      (branch_of : W → Str)
      → ((branch : Str) (w w' : W)
          → s.git.checkout_force branch w ≡ (w', ok tt)
          → branch_of w' ≡ branch)
      → (random : Outcome Str) (name stream : Str) (d e : GitDirectory W Auth) (p : P)
        (r : (GitDirectory W Auth × P) × Done)
      → verify_write d ≡ ok tt
      → stream_of random name ≡ ok stream
      → pull s.git s.is_cancelled d ≡ some (e, ok tt)
      → transaction s random name d p ≡ some r
      → BackOnMain branch_of d.opts.branch r.0.0.world
  unfolding transaction after_pull unlock
  transaction-main branch_of forced random name stream d e p r v h pulled ended =
      let (opts, has_wt, free) = pull-back s.git s.is_cancelled d (e, ok tt) pulled in
      let m = middle s stream e p in
      let i = middle-Kept s stream e p in
      let last : r ≡ ((unlock (checkout_main_branch s.git m.0.0).0, m.0.1), m.1) =
        suspended-some s stream e p r free (ground (arith, h, pulled, ended)) in
      let forth =
        checkout_main_branch_lem s m.0.0
          (verify_write-Kept d m.0.0 (i.opts ∙ opts) (i.has_wt ∙ has_wt) v) in
      let o = s.git.checkout_force m.0.0.opts.branch (s.git.clean m.0.0.world) in
      let world : o.0 ≡ r.0.0.world =
        sym (ap (λ x. x.0.0.world) last ∙ ap (λ x. x.0.world) forth) in
      let main : m.0.0.opts.branch ≡ d.opts.branch = ap (λ x. x.branch) (i.opts ∙ opts) in
      let back = forced-BackOnMain branch_of forced m.0.0.opts.branch m.0.0.world o.0 o.1 refl in
      subst (λ b. BackOnMain branch_of b r.0.0.world) main
        (subst (λ w. BackOnMain branch_of m.0.0.opts.branch w) world back)

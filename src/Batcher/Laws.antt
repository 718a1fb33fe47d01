-- ===== src/Batcher/Laws.antt =====
-- pkg/util/sync/batcher.go: when a batch is handed over.
use libgitops.Prelude.{nat_beq, if◌then◌else◌, ℕ, ◌+◌, ◌≤◌, ◌≡◌, true, false, arith}
use libgitops.Prelude.Equality.{Comparable}
use libgitops.Prelude.Outcome.{ok, panic}
use libgitops.Batcher.{
  BatchWriter, store, fire, cancel_unfired_timer, dispatch_after_timeout, close,
}

module _ {ℓ κ} {K : Type ℓ} {V : Type κ} ⦃e : Comparable K⦄ where
  -- An open writer that is closed after a value was stored makes the program panic. If a timer that
  -- has fired still waits to send, then it is its send that panics. If none does, then Close returns,
  -- but the new timer is not stopped: when the duration is over, its function panics, since it sends
  -- on the closed channel.
  pub fire-close :
      (now later : ℕ) (k : K) (v : V) (b : BatchWriter K V)
      → b.closed ≡ false
      → now + b.duration ≤ later
      → (c : BatchWriter K V) × (close (store now k v b)
          ≡ (if nat_beq b.waiting 0 then ok c else panic))
        × (fire later c ≡ panic)
  unfolding fire close store cancel_unfired_timer dispatch_after_timeout
  fire-close now later k v b fresh over =
      (record (store now k v b) { closed = true }, ground (arith, fresh), ground (arith, over))

-- ===== src/Batcher.antt =====
-- pkg/util/sync/batcher.go: `BatchWriter`, which collects writes to a map and hands them over in
-- one batch when no write came for a while. Times are given from outside; the timer is its
-- deadline, and `waiting` counts the fired timers that wait to be received on the channel.
pub mod Laws
use libgitops.Prelude.{
  ℕ, suc, zero, ◌+◌, Bool, true, false, not, nat_beq, Option, none, some, List, [], ◌∷◌, leb,
  if◌then◌else◌,
}
use libgitops.Prelude.Equality.{Comparable}
use libgitops.Prelude.Outcome.{Outcome, ok, panic}
use libgitops.Prelude.Dict.{Dict, lookup, insert}

pub record BatchWriter {ℓ κ} (K : Type ℓ) (V : Type κ) : Type (ℓ ⊔ κ) where
  pub duration : ℕ
  pub timer : Option ℕ
  pub waiting : ℕ
  pub closed : Bool
  pub sync_map : Dict K V

-- What `ProcessBatch` does: it blocks, or returns false, or visits the entries and returns true.
pub data Batch {ℓ} (A : Type ℓ) : Type ℓ where
  blocked stopped : Batch A
  visited : A → Batch A

module _ {ℓ κ} {K : Type ℓ} {V : Type κ} ⦃e : Comparable K⦄ where
  unfoldable pub new_batch_writer : ℕ → BatchWriter K V
  new_batch_writer duration = record {
    duration = duration;
    timer = none;
    waiting = 0;
    closed = false;
    sync_map = [];
  }

  unfoldable pub load : K → BatchWriter K V → Option V
  load k b = lookup k b.sync_map

  unfoldable pub cancel_unfired_timer : BatchWriter K V → BatchWriter K V
  cancel_unfired_timer b = record b { timer = none }

  unfoldable pub dispatch_after_timeout : ℕ → BatchWriter K V → BatchWriter K V
  dispatch_after_timeout now b = record b { timer = some (now + b.duration) }

  unfoldable pub store : ℕ → K → V → BatchWriter K V → BatchWriter K V
  unfolding cancel_unfired_timer dispatch_after_timeout
  store now k v b =
      dispatch_after_timeout now
        (record (cancel_unfired_timer b) { sync_map = insert k v b.sync_map })

  -- `Close`; a channel that is closed twice panics, and so does a fired timer that waits to send.
  unfoldable pub close : BatchWriter K V → Outcome (BatchWriter K V)
  close b =
      if b.closed
      then panic
      else if not (nat_beq b.waiting 0)
      then panic
      else ok (record b { closed = true })

  -- The function that `time.AfterFunc` runs, if its time has come. A send on a closed channel panics.
  unfoldable pub fire : ℕ → BatchWriter K V → Outcome (BatchWriter K V)
  fire now b = elim b.timer [
    | none ↦ ok b
    | some deadline ↦
        if leb deadline now
        then (if b.closed then panic else ok (record b { timer = none; waiting = suc b.waiting }))
        else ok b
  ]

  -- `syncMap.Range(fn)`, where `fn` changes a state and says whether to go on.
  unfoldable pub range_map {ι} : {S : Type ι} → (K → V → S → S × Bool) → Dict K V → S → S
  range_map fn [] s = s
  range_map fn ((k, v) ∷ d) s =
      let rest = range_map fn d in let (s, more) = fn k v s in if more then rest s else s

  unfoldable pub process_batch {ι} :
      {S : Type ι} → (K → V → S → S × Bool) → S → BatchWriter K V → BatchWriter K V × Batch S
  unfolding range_map
  process_batch fn s b = if b.closed then (b, stopped) else elim b.waiting [
    | zero ↦ (b, blocked)
    | suc n ↦ (record b { waiting = n; sync_map = [] }, visited (range_map fn b.sync_map s))
  ]

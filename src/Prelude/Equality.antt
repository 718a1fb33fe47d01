-- ===== src/Prelude/Equality.antt =====
-- Go's comparable types: those that can be the keys of a map.
use libgitops.Prelude.{ℕ, Bool, true, ◌≡◌, ◌↔◌, nat_beq, nat_beq_iff}

pub record Comparable {ℓ} (K : Type ℓ) : Type ℓ where
  pub same : K → K → Bool
  pub same_iff : (j k : K) → (same j k ≡ true) ↔ (j ≡ k)

instance abbrev pub nat_eq : Comparable ℕ
nat_eq = record { same = nat_beq; same_iff = nat_beq_iff }

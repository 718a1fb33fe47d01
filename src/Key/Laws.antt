-- ===== src/Key/Laws.antt =====
-- Which kinds `EqualsGVK` identifies.
use libgitops.Prelude.{Bool, true, false, ◌≡◌, ◌↔◌, arith}
use libgitops.Prelude.Text.{str_eq_iff}
use libgitops.Key.{Gvk, equals_gvk}

-- EqualsGVK says true exactly when the kinds and the groups are the same and, if the version is to
-- be respected, the versions are the same.
pub equals_gvk_iff :
    (a b : Gvk) (respect_version : Bool)
    → (equals_gvk a b respect_version ≡ true)
      ↔ ((a.kind ≡ b.kind) × (a.group ≡ b.group) × (respect_version ≡ true → a.version ≡ b.version))
unfolding equals_gvk
equals_gvk_iff a b true =
    ground
      (arith, str_eq_iff a.kind b.kind, str_eq_iff a.group b.group, str_eq_iff a.version b.version)
equals_gvk_iff a b false = ground (arith, str_eq_iff a.kind b.kind, str_eq_iff a.group b.group)

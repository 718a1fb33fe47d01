-- ===== src/Key.antt =====
-- pkg/storage/key.go: the keys of kinds and of objects.
pub mod Laws
use libgitops.Prelude.{
  Bool, true, false, not, ◌||◌, ◌&&◌, ◌≡◌, ◌↔◌, Option, none, some, if◌then◌else◌, arith, ap,
}
use libgitops.Prelude.Equality.{Comparable}
use libgitops.Prelude.Text.{Str, str_eq, str_eq_iff}

-- `schema.GroupVersionKind`, and `kindKey`, which is the same struct.
pub record Gvk : Type 0 where
  pub group : Str
  pub version : Str
  pub kind : Str

unfoldable pub equals_gvk : Gvk → Gvk → Bool → Bool
equals_gvk gvk other respect_version =
    if not (str_eq gvk.kind other.kind) || not (str_eq gvk.group other.group)
    then false
    else if not respect_version
    then true
    else str_eq gvk.version other.version

-- `objectKey`: a kind with the text that its `Identifyable` returns.
pub record ObjectKey : Type 0 where
  pub kind_key : Gvk
  pub identifier : Str

-- Two interface values that hold an `objectKey` are equal if their fields are.
unfoldable pub key_beq : ObjectKey → ObjectKey → Bool
key_beq a b =
    str_eq a.kind_key.group b.kind_key.group
    && (str_eq a.kind_key.version b.kind_key.version
        && (str_eq a.kind_key.kind b.kind_key.kind && str_eq a.identifier b.identifier))

pub key_beq_iff : (a b : ObjectKey) → (key_beq a b ≡ true) ↔ (a ≡ b)
unfolding key_beq
key_beq_iff a b = ground (
  arith,
  str_eq_iff a.kind_key.group b.kind_key.group,
  str_eq_iff a.kind_key.version b.kind_key.version,
  str_eq_iff a.kind_key.kind b.kind_key.kind,
  str_eq_iff a.identifier b.identifier,
)

-- A value of the interface type `ObjectKey`; `none` is nil.
unfoldable pub nilable_beq : Option ObjectKey → Option ObjectKey → Bool
nilable_beq none none = true
nilable_beq none (some b) = false
nilable_beq (some a) none = false
nilable_beq (some a) (some b) = key_beq a b

pub nilable_beq_iff : (a b : Option ObjectKey) → (nilable_beq a b ≡ true) ↔ (a ≡ b)
unfolding nilable_beq
nilable_beq_iff none none = ground arith
nilable_beq_iff none (some b) = ground arith
nilable_beq_iff (some a) none = ground arith
nilable_beq_iff (some a) (some b) = ground (arith, key_beq_iff a b)

instance abbrev pub key_eq : Comparable (Option ObjectKey)
key_eq = record { same = nilable_beq; same_iff = nilable_beq_iff }

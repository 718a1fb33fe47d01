-- ===== src/Runtime.antt =====
-- pkg/runtime: objects as the storages see them, and how they are identified.
pub mod Identifiers
use libgitops.Prelude.{
  ℕ, Bool, true, false, ◌||◌, Option, none, some, List, [], ◌∷◌, ◌++◌, if◌then◌else◌,
}
use libgitops.Prelude.Text.{Str, is_empty}
use libgitops.Prelude.Dict.{Dict}
use libgitops.FilePath.{slash}
use libgitops.Key.{Gvk}

-- `runtime.Object`: the parts of TypeMeta and ObjectMeta that the program reads or writes, and all
-- else as `spec`. A zero timestamp is 0, a nil map of annotations is `none`.
pub record Object : Type 0 where
  pub type_meta : Gvk
  pub namespace : Str
  pub name : Str
  pub uid : Str
  pub creation_timestamp : ℕ
  pub annotations : Option (Dict Str Str)
  pub is_partial : Bool
  pub spec : Str

-- `IdentifierFactory`
abbrev pub IdentifierFactory : Type 0
IdentifierFactory = Object → Option Str

-- `Metav1NameIdentifierFactory.Identify`
unfoldable pub metav1_name_identify : IdentifierFactory
metav1_name_identify o =
    if is_empty o.namespace || is_empty o.name then none else some (o.namespace ++ (slash ∷ o.name))

-- `ObjectUIDIdentifierFactory.Identify`
unfoldable pub object_uid_identify : IdentifierFactory
object_uid_identify o = if is_empty o.uid then none else some o.uid

-- ===== src/Codec.antt =====
-- pkg/serializer: what it uses of the Kubernetes libraries, as a parameter, and the helpers of
-- serializer.go. A scheme is a state, since types can be added to it. An object that is written
-- to is returned; what it holds after an error is not modelled.
pub mod Convertor
pub mod Annotations
pub mod Comments
pub mod Decoder
pub mod Encoder
pub mod Defaulter
pub mod Lost
use libgitops.Prelude.{
  ℕ, Bool, true, false, not, ◌&&◌, Option, none, some, List, [], ◌∷◌, if◌then◌else◌,
}
use libgitops.Prelude.Text.{Str, bytes, is_empty}
use libgitops.Prelude.Dict.{Dict}
use libgitops.Prelude.Outcome.{
  Outcome, Done, ok, err, panic, ◌>>=◌, Error, invalid_kinds, no_registered_version,
}
use libgitops.Key.{Gvk}

-- `schema.GroupVersion`
pub record GroupVersion : Type 0 where
  pub group : Str
  pub version : Str

abbrev pub with_kind : GroupVersion → Str → Gvk
with_kind gv kind = record { group = gv.group; version = gv.version; kind = kind }

abbrev pub group_version_of : Gvk → GroupVersion
group_version_of gvk = record { group = gvk.group; version = gvk.version }

-- `runtime.GroupVersioner`: the internal one, a group version, or another.
pub data GroupVersioner : Type 0 where
  internal_versioner other_versioner : GroupVersioner
  to_version : GroupVersion → GroupVersioner

-- What `runtime.Object` values of a type `O` offer. `convert_to` and `convert_from` are the methods
-- of a `Convertible`, with the hub second, and return the object that they write to.
pub record Objects (O : Type 0) : Type 0 where
  pub get_gvk : O → Gvk
  pub set_gvk : Gvk → O → O
  pub deep_copy : O → O
  pub is_convertible : O → Bool
  pub is_hub : O → Bool
  pub convert_to : O → O → Outcome O
  pub convert_from : O → O → Outcome O
  -- The items of a `metav1.List`, if it is one.
  pub list_items : O → Option (List Str)
  -- `&runtime.Unknown{}`
  pub unknown : O
  -- The three type assertions of `toMetaObject`.
  pub is_meta_accessor : O → Bool
  pub has_object_meta : O → Bool
  pub is_meta_object : O → Bool
  pub get_annotations : O → Option (Dict Str Str)
  pub set_annotations : Dict Str Str → O → O

-- What a `runtime.Scheme` offers in a state `S`.
pub record Scheme (S O : Type 0) : Type 0 where
  pub recognizes : Gvk → S → Bool
  -- `AddKnownTypes(metav1.Unversioned, &metav1.List{})`
  pub add_list : S → S
  pub is_group_registered : Str → S → Bool
  pub is_version_registered : GroupVersion → S → Bool
  pub prioritized_versions : Str → S → List GroupVersion
  pub all_known_types : S → List Gvk
  pub object_kinds : O → S → Outcome (List Gvk × Bool)
  pub new : Gvk → S → Outcome O
  pub convert : O → O → S → Outcome O
  pub convert_to_version : O → Option GroupVersioner → S → Outcome O
  pub default : O → S → O
  -- `webhookconversion.IsConvertible`
  pub has_conversion_path : O → S → Outcome Bool

-- `metav1.Unversioned.WithKind("List")`
abbrev pub list_gvk : Gvk
list_gvk = record { group = []; version = bytes "v1"; kind = bytes "List" }

-- `runtime.APIVersionInternal`
abbrev pub api_version_internal : Str
api_version_internal = bytes "__internal"

-- `gvk.Empty()`
abbrev pub is_empty_gvk : Gvk → Bool
is_empty_gvk gvk = is_empty gvk.group && (is_empty gvk.version && is_empty gvk.kind)

-- `len(gvks) != 1`
one_kind : List Gvk → Outcome Gvk
one_kind [] = err invalid_kinds
one_kind (gvk ∷ []) = ok gvk
one_kind (gvk ∷ other ∷ gvks) = err invalid_kinds

first_version : List GroupVersion → Outcome GroupVersion
first_version [] = err no_registered_version
first_version (gv ∷ gvs) = ok gv

module _ {S O : Type 0} (api : Objects O) (scheme : Scheme S O) (s : S) where
  -- `GVKForObject`
  unfoldable pub gvk_for_object : O → Outcome Gvk
  unfolding one_kind
  gvk_for_object obj =
      if not (is_empty_gvk (api.get_gvk obj))
      then ok (api.get_gvk obj)
      else elim (scheme.object_kinds obj s) [
        | ok kinds ↦ if kinds.1 then err invalid_kinds else one_kind kinds.0
        | err e ↦ err invalid_kinds
        | panic ↦ panic
      ]

  -- `prioritizedVersionForGroup`
  unfoldable pub prioritized_version_for_group : Str → Outcome GroupVersion
  unfolding first_version
  prioritized_version_for_group name = first_version (scheme.prioritized_versions name s)

  -- `populateGVK`
  unfoldable pub populate_gvk : O → Outcome O
  populate_gvk obj = do gvk ← gvk_for_object obj; ok (api.set_gvk gvk obj)

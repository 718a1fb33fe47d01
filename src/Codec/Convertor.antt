-- ===== src/Codec/Convertor.antt =====
-- pkg/serializer/convertor.go: conversion between the versions of a kind, by the scheme or, for
-- custom resources, by the methods of a Convertible and its Hub.
pub mod Laws
pub mod Targets
use libgitops.Prelude.{
  Bool, true, false, not, ◌&&◌, ◌||◌, Option, none, some, List, [], ◌∷◌, if◌then◌else◌,
}
use libgitops.Prelude.Text.{Str, str_eq}
use libgitops.Prelude.Outcome.{
  Outcome, ok, err, panic, ◌>>=◌, Error, crd_conversion, crd_conversion_nil,
  CrdConversionErrorCause, cause_convert_to, cause_convert_from, scheme_setup, invalid_args,
  out_must_be_hub, in_must_be_hub, must_not_have_two_hubs, obj_must_not_be_both, no_group_version,
  no_hub_type,
}
use libgitops.Key.{Gvk}
use libgitops.Codec.{
  Objects, Scheme, GroupVersion, GroupVersioner, internal_versioner, other_versioner, to_version,
  with_kind, group_version_of, gvk_for_object, populate_gvk,
}

-- `schema.GroupVersionKind{}`
abbrev pub empty_gvk : Gvk
empty_gvk = record { group = []; version = []; kind = [] }

-- An error of a call, as the cause of a `CRDConversionError`.
unfoldable pub as_crd_error {ℓ} :
    {A : Type ℓ} → CrdConversionErrorCause → Gvk → Outcome A → Outcome A
as_crd_error cause gvk (ok a) = ok a
as_crd_error cause gvk (err e) = err (crd_conversion cause gvk e)
as_crd_error cause gvk panic = panic

-- The groups and kinds of two types agree, and so do their `GroupKind().String()`, since no kind has
-- a dot in it. Below, two group versions print alike if they agree, since no group has a slash.
abbrev pub same_group_kind : Gvk → Gvk → Bool
same_group_kind a b = str_eq a.group b.group && str_eq a.kind b.kind

module _ {S O : Type 0} (api : Objects O) (scheme : Scheme S O) (s : S) where
  unfoldable pub validate_convertible : O → Outcome Gvk
  validate_convertible o = do
    gvk ← gvk_for_object api scheme s o
    convertible ← as_crd_error scheme_setup gvk (scheme.has_conversion_path o s)
    if convertible then ok gvk else err (crd_conversion_nil scheme_setup gvk)

  unfoldable pub convert_into_hub : O → O → Outcome O
  convert_into_hub src hub = do
    gvk ← validate_convertible src
    written ← as_crd_error cause_convert_to gvk (api.convert_to src hub)
    populate_gvk api scheme s written

  unfoldable pub convert_from_hub : O → O → Outcome O
  convert_from_hub hub dst = do
    gvk ← validate_convertible dst
    written ← as_crd_error cause_convert_from gvk (api.convert_from dst hub)
    populate_gvk api scheme s written

  -- `Convert`, which returns the object that it writes to.
  unfoldable pub convert : O → O → Outcome O
  convert src dst =
      if api.is_convertible src
      then (if api.is_hub dst
          then convert_into_hub src dst
          else err (crd_conversion invalid_args empty_gvk out_must_be_hub))
      else if api.is_convertible dst
      then (if api.is_hub src
          then convert_from_hub src dst
          else err (crd_conversion invalid_args empty_gvk in_must_be_hub))
      else if api.is_hub src && api.is_hub dst
      then err (crd_conversion invalid_args empty_gvk must_not_have_two_hubs)
      else scheme.convert src dst s

  -- The types of the loop of `findHubType`, in the order in which the map is visited. The result
  -- has the type of the hub, which is empty beside an error.
  unfoldable pub hub_among : Gvk → List Gvk → Outcome (O × Gvk)
  hub_among current [] = err no_hub_type
  hub_among current (gvk ∷ gvks) =
      let rest = hub_among current gvks in
      if not (same_group_kind gvk current) || str_eq gvk.version current.version
      then rest
      else elim (scheme.new gvk s) [
        | ok o ↦ if api.is_hub o then ok (o, gvk) else rest
        | err e ↦ rest
        | panic ↦ panic
      ]

  unfoldable pub find_hub_type : Gvk → Outcome (O × Gvk)
  find_hub_type current = hub_among current (scheme.all_known_types s)

  unfoldable pub convert_to_hub : O → Outcome O
  convert_to_hub src = do
    gvk ← validate_convertible src
    (hub, target) ← as_crd_error scheme_setup empty_gvk (find_hub_type gvk)
    written ← as_crd_error cause_convert_to target (api.convert_to src hub)
    ok (api.set_gvk target written)

  -- `ConvertToVersion` of a Hub or a Convertible, for a given group version.
  unfoldable pub convert_to_group_version : O → GroupVersion → Outcome O
  convert_to_group_version src gv = do
    gvk ← gvk_for_object api scheme s src
    if str_eq gvk.group gv.group && str_eq gvk.version gv.version
        then ok (api.set_gvk gvk (api.deep_copy src))
        else (do dst ← scheme.new (with_kind gv gvk.kind) s; convert src dst)

  -- `ConvertToVersion` of a Hub or a Convertible: the comparison of the versioner, which may be nil,
  -- with the internal one, and its type assertion.
  unfoldable pub convert_crd : O → Option GroupVersioner → Outcome O
  convert_crd src none = err no_group_version
  convert_crd src (some internal_versioner) =
      if api.is_hub src then ok (api.deep_copy src) else convert_to_hub src
  convert_crd src (some other_versioner) = err no_group_version
  convert_crd src (some (to_version gv)) = convert_to_group_version src gv

  -- `ConvertToVersion` of an `objectConvertor` with the given `doConversion`.
  unfoldable pub convert_to_version : Bool → O → Option GroupVersioner → Outcome O
  convert_to_version do_conversion src versioner =
      if not do_conversion
      then ok (api.deep_copy src)
      else if not (api.is_hub src) && not (api.is_convertible src)
      then scheme.convert_to_version src versioner s
      else if api.is_hub src && api.is_convertible src
      then err (crd_conversion invalid_args empty_gvk obj_must_not_be_both)
      else convert_crd src versioner

  -- The methods of `converter`.
  unfoldable pub convert_into_new : O → Gvk → Outcome O
  convert_into_new src gvk = do dst ← scheme.new gvk s; convert src dst

  unfoldable pub converter_convert_to_hub : O → Outcome O
  converter_convert_to_hub src = convert_to_version true src none

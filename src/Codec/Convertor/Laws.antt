-- ===== src/Codec/Convertor/Laws.antt =====
-- pkg/serializer/convertor.go: of which type the result of a conversion is.
use libgitops.Prelude.{◌≡◌, ◌∙◌, true, false, ◌&&◌, some, arith, ◌⊎◌, inl, inr, Bool-cases}
use libgitops.Prelude.Text.{str_eq, str_eq_iff}
use libgitops.Prelude.Outcome.{
  Outcome, bind-ok, CrdConversionErrorCause, ok, err, panic, Error, no_group_version,
  obj_must_not_be_both, invalid_args, crd_conversion,
}
use libgitops.Key.{Gvk}
use libgitops.Codec.{
  Objects, Scheme, GroupVersion, to_version, with_kind, gvk_for_object, populate_gvk,
}
use libgitops.Codec.Convertor.{
  as_crd_error, validate_convertible, convert_into_hub, convert_from_hub, convert,
  convert_to_group_version, convert_crd, convert_to_version, converter_convert_to_hub, empty_gvk,
}

module _ {S O : Type 0} (api : Objects O) (scheme : Scheme S O) (s : S) where
  -- The setters and copies of objects do what they say, a new object has the type that was asked
  -- for, and the methods of a Convertible leave an object of the type that they write to.
  pub record IsTyped : Type 0 where
    pub get_set : (g : Gvk) (o : O) → api.get_gvk (api.set_gvk g o) ≡ g
    pub new_kind : (g : Gvk) (o : O) → scheme.new g s ≡ ok o → gvk_for_object api scheme s o ≡ ok g
    pub convert_to_kind :
        (src hub written : O)
        → api.convert_to src hub ≡ ok written
        → gvk_for_object api scheme s written ≡ gvk_for_object api scheme s hub
    pub convert_from_kind :
        (dst hub written : O)
        → api.convert_from dst hub ≡ ok written
        → gvk_for_object api scheme s written ≡ gvk_for_object api scheme s dst

  pub populate_gvk_lem :
      (o : O) (g : Gvk)
      → gvk_for_object api scheme s o ≡ ok g
      → populate_gvk api scheme s o ≡ ok (api.set_gvk g o)
  unfolding populate_gvk
  populate_gvk_lem o g h = ground (arith, h)

  pub as_crd_error-ok :
      {A : Type 0} (cause : CrdConversionErrorCause) (g : Gvk) (x : Outcome A) (a : A)
      → as_crd_error cause g x ≡ ok a
      → x ≡ ok a
  unfolding as_crd_error
  as_crd_error-ok cause g (ok b) a h = h
  as_crd_error-ok cause g (err e) a h = absurd (ground (arith, h))
  as_crd_error-ok cause g panic a h = absurd (ground (arith, h))

  -- What is populated with its type says that type.
  populated-kind :
      IsTyped
      → (written out : O) (g : Gvk) → gvk_for_object api scheme s written ≡ ok g
      → populate_gvk api scheme s written ≡ ok out
      → api.get_gvk out ≡ g
  populated-kind typed written out g k h =
      ground (arith, populate_gvk_lem written g k, h, typed.get_set g written)

  convert_into_hub-kind :
      IsTyped
      → (src hub out : O) (g : Gvk) → gvk_for_object api scheme s hub ≡ ok g
      → convert_into_hub api scheme s src hub ≡ ok out
      → api.get_gvk out ≡ g
  unfolding convert_into_hub
  convert_into_hub-kind typed src hub out g k h =
      let (from, valid, rest) = bind-ok (validate_convertible api scheme s src) _ out h in
      let (written, wrote, populated) =
        bind-ok (as_crd_error _ from (api.convert_to src hub)) _ out rest in
      let converted = as_crd_error-ok _ from (api.convert_to src hub) written wrote in
      populated-kind typed written out g (typed.convert_to_kind src hub written converted ∙ k)
        populated

  convert_from_hub-kind :
      IsTyped
      → (hub dst out : O) (g : Gvk) → gvk_for_object api scheme s dst ≡ ok g
      → convert_from_hub api scheme s hub dst ≡ ok out
      → api.get_gvk out ≡ g
  unfolding convert_from_hub
  convert_from_hub-kind typed hub dst out g k h =
      let (from, valid, rest) = bind-ok (validate_convertible api scheme s dst) _ out h in
      let (written, wrote, populated) =
        bind-ok (as_crd_error _ from (api.convert_from dst hub)) _ out rest in
      let converted = as_crd_error-ok _ from (api.convert_from dst hub) written wrote in
      populated-kind typed written out g (typed.convert_from_kind dst hub written converted ∙ k)
        populated

  -- A custom resource: a Hub or a Convertible.
  unfoldable pub IsCustom : O → Type 0
  IsCustom o = (api.is_hub o ≡ true) ⊎ (api.is_convertible o ≡ true)

  not_convertible : (o : O) → IsCustom o → api.is_convertible o ≡ false → api.is_hub o ≡ true
  unfolding IsCustom
  not_convertible o (inl h) c = h
  not_convertible o (inr h) c = absurd (ground (arith, h, c))

  convert-kind :
      IsTyped
      → (src dst out : O) (g : Gvk) → IsCustom src
      → IsCustom dst
      → gvk_for_object api scheme s dst ≡ ok g
      → convert api scheme s src dst ≡ ok out
      → api.get_gvk out ≡ g
  unfolding convert IsCustom
  convert-kind typed src dst out g custom target k h = elim (Bool-cases (api.is_convertible src)) [
    | inl c ↦ elim (Bool-cases (api.is_hub dst)) [
      | inl d ↦ convert_into_hub-kind typed src dst out g k (ground (arith, c, d, h))
      | inr d ↦ absurd (ground (arith, c, d, h))
    ]
    | inr c ↦ elim (Bool-cases (api.is_convertible dst)) [
      | inl d ↦ elim (Bool-cases (api.is_hub src)) [
        | inl e ↦ convert_from_hub-kind typed src dst out g k (ground (arith, c, d, e, h))
        | inr e ↦ absurd (ground (arith, c, d, e, h))
      ]
      | inr d ↦
          absurd
            (ground (arith, c, d, not_convertible src custom c, not_convertible dst target d, h))
    ]
  ]

  convert_to_group_version-kind :
      IsTyped
      → (src out : O) (gv : GroupVersion) (g : Gvk) → IsCustom src
      → gvk_for_object api scheme s src ≡ ok g
      → ((dst : O) → scheme.new (with_kind gv g.kind) s ≡ ok dst → IsCustom dst)
      → convert_to_group_version api scheme s src gv ≡ ok out
      → api.get_gvk out ≡ with_kind gv g.kind
  unfolding convert_to_group_version
  convert_to_group_version-kind typed src out gv g custom k targets h =
      elim (Bool-cases (str_eq g.group gv.group && str_eq g.version gv.version)) [
        | inl same ↦ ground (
          arith,
          k,
          same,
          h,
          str_eq_iff g.group gv.group,
          str_eq_iff g.version gv.version,
          typed.get_set g (api.deep_copy src),
        )
        | inr other ↦
            let (dst, made, converted) =
              bind-ok (scheme.new (with_kind gv g.kind) s) (λ dst. convert api scheme s src dst) out
                (ground (arith, k, other, h)) in
            convert-kind typed src dst out (with_kind gv g.kind) custom (targets dst made)
              (typed.new_kind (with_kind gv g.kind) dst made) converted
      ]

  -- If a Hub or a Convertible of a known type is converted to a group version, in which the scheme
  -- has its kind as a Hub or a Convertible, then the result says that group version and that kind.
  pub convert_to_version-kind :
      IsTyped
      → (src out : O) (gv : GroupVersion) (g : Gvk) → IsCustom src
      → gvk_for_object api scheme s src ≡ ok g
      → ((dst : O) → scheme.new (with_kind gv g.kind) s ≡ ok dst → IsCustom dst)
      → convert_to_version api scheme s true src (some (to_version gv)) ≡ ok out
      → api.get_gvk out ≡ with_kind gv g.kind
  unfolding convert_to_version convert_crd IsCustom
  convert_to_version-kind typed src out gv g custom k targets h =
      convert_to_group_version-kind typed src out gv g custom k targets
        (elim custom [ inl c ↦ ground (arith, c, h) | inr c ↦ ground (arith, c, h) ])

  -- `Converter.ConvertToHub` never succeeds for a Hub or a Convertible: it hands on a nil versioner,
  -- which is not the internal one.
  pub converter_convert_to_hub-custom :
      (src : O) → IsCustom src → (e : Error) × (converter_convert_to_hub api scheme s src ≡ err e)
  unfolding converter_convert_to_hub convert_to_version convert_crd IsCustom
  converter_convert_to_hub-custom src custom =
      elim (Bool-cases (api.is_hub src && api.is_convertible src)) [
        | inl both ↦ (
          crd_conversion invalid_args empty_gvk obj_must_not_be_both,
          elim custom [ inl c ↦ ground (arith, c, both) | inr c ↦ ground (arith, c, both) ],
        )
        | inr one ↦ (
          no_group_version,
          elim custom [ inl c ↦ ground (arith, c, one) | inr c ↦ ground (arith, c, one) ],
        )
      ]

-- ===== src/Codec/Decoder/Laws.antt =====
-- pkg/serializer/decode.go: which errors decoding has, what it does to the scheme, and that the
-- document of an object is kept for its encoding.
use libgitops.Prelude.{
  ◌≡◌, ◌∙◌, ap, Bool, true, false, not, ◌&&◌, none, arith, Bool-cases, ◌⊎◌, inl, inr,
}
use libgitops.Prelude.Text.{Str, is_empty, str_eq}
use libgitops.Prelude.Outcome.{
  Outcome-cases, ok, err, Error, UnrecognizedTypeErrorCause, unrecognized_type, unknown_group,
  unknown_version, unknown_kind,
}
use libgitops.Key.{Gvk}
use libgitops.Codec.{api_version_internal, Objects, Scheme, list_gvk, group_version_of}
use libgitops.Codec.Comments.{Trees}
use libgitops.Codec.Decoder.{
  DecodingOptions, Library, codec_decode, extract_yaml_type_meta, classify_error,
  handle_decode_error, register_list, decode_given, decode_unknown, decode_new,
}

-- Neither empty nor the internal version.
abbrev pub is_external : Str → Bool
is_external version = not (is_empty version) && not (str_eq version api_version_internal)

module _ {S O Y : Type 0} (api : Objects O) (scheme : Scheme S O) (trees : Trees Y)
    (library : Library S O) where
  -- What holds of a scheme of Kubernetes. A version is registered with its first type, unless it is
  -- empty or the internal one; it registers its group.
  pub record IsCoherent (s : S) : Type 0 where
    pub known_version :
        (gvk : Gvk)
        → is_external gvk.version ≡ true
        → scheme.recognizes gvk s ≡ true
        → scheme.is_version_registered (group_version_of gvk) s ≡ true
    pub known_group :
        (gvk : Gvk)
        → scheme.is_version_registered (group_version_of gvk) s ≡ true
        → scheme.is_group_registered gvk.group s ≡ true

  -- What the scheme does not know, and what it does.
  pub data Lacks (s : S) (gvk : Gvk) : UnrecognizedTypeErrorCause → Type 0 where
    lacks_group : scheme.is_group_registered gvk.group s ≡ false → Lacks s gvk unknown_group
    lacks_version :
        scheme.is_group_registered gvk.group s ≡ true
        → scheme.is_version_registered (group_version_of gvk) s ≡ false
        → Lacks s gvk unknown_version
    lacks_kind :
        scheme.is_version_registered (group_version_of gvk) s ≡ true
        → scheme.recognizes gvk s ≡ false
        → Lacks s gvk unknown_kind

  -- The error for a document of a type: as it was if the scheme knows the type, and else one that
  -- says what the scheme lacks.
  unfoldable pub Classified : S → Gvk → Error → Error → Type 0
  Classified s gvk e x =
      ((scheme.recognizes gvk s ≡ true) × (x ≡ e))
      ⊎ ((cause : UnrecognizedTypeErrorCause) × (scheme.recognizes gvk s ≡ false)
          × Lacks s gvk cause
          × (x ≡ unrecognized_type cause gvk e))

  classify_error-Classified :
      (s : S) (gvk : Gvk) (e : Error)
      → IsCoherent s
      → is_external gvk.version ≡ true
      → Classified s gvk e (classify_error api scheme trees library s e gvk)
  unfolding classify_error Classified
  classify_error-Classified s gvk e coherent external =
      elim (Bool-cases (scheme.is_group_registered gvk.group s)) [
        | inl group ↦ elim (Bool-cases (scheme.is_version_registered (group_version_of gvk) s)) [
          | inl version ↦ elim (Bool-cases (scheme.recognizes gvk s)) [
            | inl kind ↦ inl (kind, ground (arith, group, version, kind))
            | inr kind ↦
                inr (
                  unknown_kind,
                  kind,
                  lacks_kind version kind,
                  ground (arith, group, version, kind),
                )
          ]
          | inr version ↦ inr (
            unknown_version,
            ground (arith, version, coherent.known_version gvk external),
            lacks_version group version,
            ground (arith, group, version),
          )
        ]
        | inr group ↦ inr (
          unknown_group,
          ground (arith, group, coherent.known_version gvk external, coherent.known_group gvk),
          lacks_group group,
          ground (arith, group),
        )
      ]

  module _ (opts : DecodingOptions) where
    -- If the codec cannot decode a document, whose type can be read and is of an external version,
    -- and the type is not wanted as unknown, then the error says precisely what the scheme lacks, or
    -- is the codec's own if the scheme knows the type. The scheme registers the version of each type
    -- of an external version, and the group of each registered version.
    pub decode_new-Classified :
        (s : S) (doc ct : Str) (gvk : Gvk) (e : Error)
        → IsCoherent (register_list api scheme trees library opts s)
        → is_external gvk.version ≡ true
        → codec_decode api scheme trees library opts
            (register_list api scheme trees library opts s)
            doc
            none
          ≡ err e
        → (opts.decode_unknown && library.is_not_registered_error e) ≡ false
        → extract_yaml_type_meta api scheme trees library doc ≡ ok gvk
        → (x : Error) × (decode_new api scheme trees library opts s doc ct
            ≡ (register_list api scheme trees library opts s, err x))
          × Classified (register_list api scheme trees library opts s) gvk e x
    unfolding decode_new handle_decode_error
    decode_new-Classified s doc ct gvk e coherent external failed wanted typed =
        let s1 = register_list api scheme trees library opts s in
        (
          classify_error api scheme trees library s1 e gvk,
          ground (arith, failed, wanted, typed),
          classify_error-Classified s1 gvk e coherent external,
        )

    -- Adding the type List adds it, and removes no type.
    pub record AddsList : Type 0 where
      pub has_list : (s : S) → scheme.recognizes list_gvk (scheme.add_list s) ≡ true
      pub keeps_types :
          (s : S) (gvk : Gvk)
          → scheme.recognizes gvk s ≡ true
          → scheme.recognizes gvk (scheme.add_list s) ≡ true

    register_list_twice :
        AddsList
        → (s : S)
        → register_list api scheme trees library opts
            (register_list api scheme trees library opts s)
          ≡ register_list api scheme trees library opts s
    unfolding register_list
    register_list_twice adds s = ground (arith, adds.has_list s)

    decode_new-scheme_lem :
        AddsList
        → (s : S) (doc ct : Str)
        → (decode_new api scheme trees library opts s doc ct).0
          ≡ register_list api scheme trees library opts s
    unfolding decode_new decode_unknown decode_given
    decode_new-scheme_lem adds s doc ct =
        let s1 = register_list api scheme trees library opts s in
        elim (Outcome-cases (codec_decode api scheme trees library opts s1 doc none)) [
          | inl (decoded, came) ↦ ground (arith, came)
          | inr (inl (e, failed)) ↦
              elim (Bool-cases (opts.decode_unknown && library.is_not_registered_error e)) [
                | inl retry ↦ ground (arith, failed, retry, register_list_twice adds s)
                | inr other ↦ ground (arith, failed, other)
              ]
          | inr (inr died) ↦ ground (arith, died)
        ]

    -- Whatever decoding a document returns, the scheme then knows the type List if the elements of
    -- lists are to be decoded, and it still knows every type that it knew.
    pub decode_new-recognizes :
        AddsList
        → (s : S) (doc ct : Str)
        → (opts.decode_list_elements ≡ true
            → scheme.recognizes list_gvk (decode_new api scheme trees library opts s doc ct).0
              ≡ true)
          × ((gvk : Gvk)
              → scheme.recognizes gvk s ≡ true
              → scheme.recognizes gvk (decode_new api scheme trees library opts s doc ct).0 ≡ true)
    unfolding register_list
    decode_new-recognizes adds s doc ct =
        let same = decode_new-scheme_lem adds s doc ct in
        (
          λ wanted. ap (scheme.recognizes list_gvk) same ∙ ground (arith, wanted, adds.has_list s),
          λ gvk known.
              ap (scheme.recognizes gvk) same ∙ ground (arith, known, adds.keeps_types s gvk known),
        )

-- ===== src/Codec/Decoder.antt =====
-- pkg/serializer/decode.go: decoding the frames of a reader. The versioning codec of the Kubernetes
-- libraries, with the JSON and YAML serializer below it, is a parameter, which is given the
-- convertor of this package. The scheme is a state, since a call may add the type List to it.
mod Options
pub mod Frames
pub mod Laws
pub mod Kept
pub use Options.*
use libgitops.Prelude.{
  ℕ, zero, suc, Bool, true, false, not, ◌&&◌, Option, none, some, List, [], ◌∷◌, ◌++◌,
  if◌then◌else◌,
}
use libgitops.Prelude.Text.{Str}
use libgitops.Prelude.Outcome.{
  Outcome, ok, err, panic, ◌>>=◌, Error, eof, nil_object, not_into, unrecognized_type,
  unknown_group, unknown_version, unknown_kind,
}
use libgitops.Key.{Gvk}
use libgitops.Frames.{Source, FrameReader, read_frame}
use libgitops.Codec.{
  Objects, Scheme, GroupVersion, GroupVersioner, internal_versioner, with_kind, group_version_of,
  list_gvk,
}
use libgitops.Codec.Convertor.{convert, convert_to_version}
use libgitops.Codec.Comments.{Trees, try_to_preserve_comments}

-- What the versioning codec decodes: an object, which may be nil, and whether it is the one given.
pub record Decoded (O : Type 0) : Type 0 where
  pub obj : Option O
  pub is_into : Bool

-- The convertor of a codec: `Convert` and `ConvertToVersion`.
pub record ObjectConvertor (O : Type 0) : Type 0 where
  pub convert : O → O → Outcome O
  pub to_version : O → Option GroupVersioner → Outcome O

-- The codec that `versioning.NewCodec` makes of a serializer that is strict or not, a convertor, a
-- scheme, the choice to default, and the version to decode into; and what else is used.
pub record Library (S O : Type 0) : Type 0 where
  pub decode :
      Bool → ObjectConvertor O → S → Bool → GroupVersioner → Str → Option O → Outcome (Decoded O)
  -- `runtime.IsNotRegisteredError`
  pub is_not_registered_error : Error → Bool
  -- `yaml.Unmarshal` into a `runtime.TypeMeta`: the API version and the kind.
  pub type_meta : Str → Outcome (Str × Str)
  -- `schema.ParseGroupVersion`
  pub parse_group_version : Str → Outcome GroupVersion

-- `err == io.EOF`
unfoldable pub is_eof : Error → Bool
is_eof eof = true
is_eof _ = false

module _ {S O Y : Type 0} (api : Objects O) (scheme : Scheme S O) (trees : Trees Y)
    (library : Library S O) where
  -- `newObjectConvertor`
  unfoldable pub new_object_convertor : S → Bool → ObjectConvertor O
  new_object_convertor s do_conversion = record {
    convert = convert api scheme s;
    to_version = convert_to_version api scheme s do_conversion;
  }

  -- `d.decoder.Decode`, of the decoder that `newDecoder` and `decoderForVersion` make.
  unfoldable pub codec_decode : DecodingOptions → S → Str → Option O → Outcome (Decoded O)
  codec_decode opts s doc into =
      library.decode opts.strict (new_object_convertor s opts.convert_to_hub) s opts.default
        internal_versioner doc into

  -- `extractYAMLTypeMeta`
  unfoldable pub extract_yaml_type_meta : Str → Outcome Gvk
  extract_yaml_type_meta doc = do
    meta ← library.type_meta doc
    gv ← library.parse_group_version meta.0
    ok (with_kind gv meta.1)

  -- `handleDecodeError` after the type was read.
  unfoldable pub classify_error : S → Error → Gvk → Error
  classify_error s orig_err gvk =
      if not (scheme.is_group_registered gvk.group s)
      then unrecognized_type unknown_group gvk orig_err
      else if not (scheme.is_version_registered (group_version_of gvk) s)
      then unrecognized_type unknown_version gvk orig_err
      else if not (scheme.recognizes gvk s)
      then unrecognized_type unknown_kind gvk orig_err
      else orig_err

  -- `handleDecodeError`
  unfoldable pub handle_decode_error : S → Str → Error → Outcome O
  handle_decode_error s doc orig_err = elim (extract_yaml_type_meta doc) [
    | ok gvk ↦ err (classify_error s orig_err gvk)
    | err e ↦ err orig_err
    | panic ↦ panic
  ]

  module _ (opts : DecodingOptions) where
    -- The registration of the type List, at the start of `decode`.
    unfoldable pub register_list : S → S
    register_list s =
        if opts.decode_list_elements && not (scheme.recognizes list_gvk s)
        then scheme.add_list s
        else s

    -- The end of `decode`, with whether an object was given.
    unfoldable pub finish_decode : Str → Str → Bool → Decoded O → Outcome O
    finish_decode doc ct into_given decoded = elim decoded.obj [
      | none ↦ err nil_object
      | some obj ↦
          if into_given && not decoded.is_into
          then err not_into
          else ok (try_to_preserve_comments api trees opts.preserve_comments doc obj ct)
    ]

    -- `decode` into a given object.
    unfoldable pub decode_given : S → Str → O → Str → S × Outcome O
    decode_given s doc into ct =
        let s1 = register_list s in
        (
          s1,
          elim (codec_decode opts s1 doc (some into)) [
            | ok decoded ↦ finish_decode doc ct true decoded
            | err e ↦ handle_decode_error s1 doc e
            | panic ↦ panic
          ],
        )

    -- `decodeUnknown`
    unfoldable pub decode_unknown : S → Str → Str → S × Outcome O
    decode_unknown s doc ct = decode_given s doc api.unknown ct

    -- `decode` with no object given.
    unfoldable pub decode_new : S → Str → Str → S × Outcome O
    decode_new s doc ct =
        let s1 = register_list s in
        elim (codec_decode opts s1 doc none) [
          | ok decoded ↦ (s1, finish_decode doc ct false decoded)
          | err e ↦
              if opts.decode_unknown && library.is_not_registered_error e
              then decode_unknown s1 doc ct
              else (s1, handle_decode_error s1 doc e)
          | panic ↦ (s1, panic)
        ]

    -- The loop of `extractNestedObjects`.
    unfoldable pub decode_items : S → List Str → Str → S × Outcome (List O)
    decode_items s [] ct = (s, ok [])
    decode_items s (item ∷ items) ct =
        let r = decode_new s item ct in
        let rest = decode_items r.0 items ct in
        elim r.1 [
          | ok obj ↦ (rest.0, do objs ← rest.1; ok (obj ∷ objs))
          | err e ↦ (r.0, err e)
          | panic ↦ (r.0, panic)
        ]

    -- `extractNestedObjects`
    unfoldable pub extract_nested_objects : S → O → Str → S × Outcome (List O)
    extract_nested_objects s obj ct =
        if not opts.decode_list_elements then (s, ok (obj ∷ [])) else elim (api.list_items obj) [
          | none ↦ (s, ok (obj ∷ []))
          | some items ↦ decode_items s items ct
        ]

    module _ {R : Type 0} (source : Source R) (ct : Str) where
      -- `Decode`, with the fuel of one call of `ReadFrame`.
      unfoldable pub decode : ℕ → S → FrameReader R → Option (FrameReader R × S × Outcome O)
      decode each s fr = elim (read_frame source each fr) [
        | none ↦ none
        | some (fr1, doc, e) ↦ elim e [
          | some x ↦ some (fr1, s, err x)
          | none ↦ let r = decode_new s doc ct in some (fr1, r.0, r.1)
        ]
      ]

      -- `DecodeInto`, which returns the object that it writes to.
      unfoldable pub decode_into :
          ℕ → S → FrameReader R → O → Option (FrameReader R × S × Outcome O)
      decode_into each s fr into = elim (read_frame source each fr) [
        | none ↦ none
        | some (fr1, doc, e) ↦ elim e [
          | some x ↦ some (fr1, s, err x)
          | none ↦ let r = decode_given s doc into ct in some (fr1, r.0, r.1)
        ]
      ]

      -- The loop of `DecodeAll`, with fuel for its rounds.
      unfoldable pub decode_loop :
          ℕ → ℕ → S → List O → FrameReader R → Option (FrameReader R × S × Outcome (List O))
      decode_loop zero each s objs fr = none
      decode_loop (suc fuel) each s objs fr = elim (decode each s fr) [
        | none ↦ none
        | some (fr1, s1, decoded) ↦ elim decoded [
          | panic ↦ some (fr1, s1, panic)
          | err e ↦ if is_eof e then some (fr1, s1, ok objs) else some (fr1, s1, err e)
          | ok obj ↦
              let nested = extract_nested_objects s1 obj ct in
              elim nested.1 [
                | ok nested_objs ↦ decode_loop fuel each nested.0 (objs ++ nested_objs) fr1
                | err e ↦ some (fr1, nested.0, err e)
                | panic ↦ some (fr1, nested.0, panic)
              ]
        ]
      ]

      -- `DecodeAll`
      unfoldable pub decode_all :
          ℕ → ℕ → S → FrameReader R → Option (FrameReader R × S × Outcome (List O))
      decode_all fuel each s fr = decode_loop fuel each s [] fr

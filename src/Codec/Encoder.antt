-- ===== src/Codec/Encoder.antt =====
-- pkg/serializer/encode.go: encoding objects in an external version. The serializers of the Kubernetes
-- libraries for the media types are a parameter, by which a versioning codec encodes.
pub mod Laws
use libgitops.Prelude.{
  Bool, true, false, not, ◌&&◌, Option, none, some, List, [], ◌∷◌, if◌then◌else◌,
}
use libgitops.Prelude.Text.{Str, str_eq}
use libgitops.Prelude.Outcome.{Outcome, Done, ok, err, panic, ◌>>=◌, unsupported_content_type}
use libgitops.Key.{Gvk}
use libgitops.Codec.{
  Objects, Scheme, GroupVersion, GroupVersioner, to_version, group_version_of, gvk_for_object,
  prioritized_version_for_group, api_version_internal,
}
use libgitops.Codec.Annotations.{is_meta}
use libgitops.Codec.Convertor.{convert_to_version}
use libgitops.Codec.Comments.{Trees, FrameSink, Step, normal_encode, encode_with_comment_support}

-- `EncodingOptions`, whose pointers are never nil.
pub record EncodingOptions : Type 0 where
  pub pretty : Bool
  pub preserve_comments : Bool

abbrev pub EncodingOptionsFunc : Type 0
EncodingOptionsFunc = EncodingOptions → EncodingOptions

abbrev pub with_pretty_encode : Bool → EncodingOptionsFunc
with_pretty_encode pretty opts = record opts { pretty = pretty }

abbrev pub with_comments_encode : Bool → EncodingOptionsFunc
with_comments_encode comments opts = record opts { preserve_comments = comments }

abbrev pub with_encoding_options : EncodingOptions → EncodingOptionsFunc
with_encoding_options new_opts opts = new_opts

-- `defaultEncodeOpts`
abbrev pub default_encode_opts : EncodingOptions
default_encode_opts = record { pretty = true; preserve_comments = false }

-- The loop of `newEncodeOpts`.
abbrev pub apply_encode_opts : List EncodingOptionsFunc → EncodingOptions → EncodingOptions
apply_encode_opts [] opts = opts
apply_encode_opts (fn ∷ fns) opts = apply_encode_opts fns (fn opts)

abbrev pub new_encode_opts : List EncodingOptionsFunc → EncodingOptions
new_encode_opts fns = apply_encode_opts fns default_encode_opts

-- `runtime.SerializerInfo`, with serializers of a type `C`.
pub record SerializerInfo (C : Type 0) : Type 0 where
  pub serializer : C
  pub pretty_serializer : Option C

-- `runtime.SerializerInfoForMediaType` of the supported media types, and what the codec encodes that
-- `versioning.NewCodec` makes of a serializer, a conversion to a version, and that version.
pub record Codecs (C O : Type 0) : Type 0 where
  pub info : Str → Option (SerializerInfo C)
  pub encode : C → (O → Option GroupVersioner → Outcome O) → GroupVersion → O → Outcome Str

module _ {S O : Type 0} (api : Objects O) (scheme : Scheme S O) (s : S) where
  -- The group version that `Encode` encodes an object for.
  unfoldable pub target_version : O → Outcome GroupVersion
  target_version obj = do
    gvk ← gvk_for_object api scheme s obj
    if str_eq gvk.version api_version_internal
        then (do
          gv ← prioritized_version_for_group api scheme s gvk.group
          ok (group_version_of (record gvk { version = gv.version })))
        else ok (group_version_of gvk)

module _ {S O Y C : Type 0} (api : Objects O) (scheme : Scheme S O) (trees : Trees Y)
    (codecs : Codecs C O) (opts : EncodingOptions) (s : S) where
  -- `encoderForVersion`: the version is converted to, and there is no defaulting.
  unfoldable pub encoder_for_version : C → GroupVersion → O → Outcome Str
  encoder_for_version encoder gv obj =
      codecs.encode encoder (convert_to_version api scheme s true) gv obj

  -- The choice between the two serializers.
  unfoldable pub choose_serializer : SerializerInfo C → C
  choose_serializer info =
      if opts.pretty
      then elim info.pretty_serializer [ some pretty ↦ pretty | none ↦ info.serializer ]
      else info.serializer

  module _ {W : Type 0} (sink : FrameSink W) where
    -- `EncodeForGroupVersion`, which returns the object as it leaves it.
    unfoldable pub encode_for_group_version : W → O → GroupVersion → Step O W
    encode_for_group_version w obj gv = elim (codecs.info sink.content_type) [
      | none ↦ (obj, w, err unsupported_content_type)
      | some info ↦
          let version_encoder = encoder_for_version (choose_serializer info) gv in
          if not (is_meta api obj)
          then normal_encode sink version_encoder obj w
          else encode_with_comment_support api trees sink opts.preserve_comments version_encoder obj
              w
    ]

    -- `Encode`, with the objects as it leaves them.
    unfoldable pub encode : W → List O → List O × W × Done
    encode w [] = ([], w, ok tt)
    encode w (obj ∷ objs) = elim (target_version api scheme s obj) [
      | err e ↦ (obj ∷ objs, w, err e)
      | panic ↦ (obj ∷ objs, w, panic)
      | ok gv ↦
          let r = encode_for_group_version w obj gv in
          let rest = encode r.1 objs in
          elim r.2 [
            | ok u ↦ (r.0 ∷ rest.0, rest.1, rest.2)
            | err e ↦ (r.0 ∷ objs, r.1, err e)
            | panic ↦ (r.0 ∷ objs, r.1, panic)
          ]
    ]

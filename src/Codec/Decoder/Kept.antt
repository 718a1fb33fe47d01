-- ===== src/Codec/Decoder/Kept.antt =====
-- pkg/serializer/decode.go and comments.go: the document of an object, from decoding to encoding.
use libgitops.Prelude.{
  ◌≡◌, refl, ◌∙◌, sym, ap, Bool, true, false, not, ◌&&◌, none, some, arith, if◌then◌else◌,
  Option-cases, Bool-cases, inl, inr,
}
use libgitops.Prelude.Text.{Str, str_eq, str_eq_iff}
use libgitops.Prelude.Outcome.{Outcome, Outcome-cases, ok, Error}
use libgitops.Raw.Content.{yaml}
use libgitops.Codec.{Objects, Scheme}
use libgitops.Codec.Annotations.{is_meta, KeepsAnnotations, is_meta-set}
use libgitops.Codec.Comments.{
  Trees, FrameSink, get_comment_source, get_comment_source_meta, set_comment_source_bytes,
  try_to_preserve_comments, encode_onto, encode_with_comment_support, encode_stored,
  no_annotation_wrapper, normal_encode, preserve_comments_annotation,
}
use libgitops.Codec.Comments.Sources.{Decodes, try_to_preserve_comments-Stores}
use libgitops.Codec.Decoder.{
  DecodingOptions, Library, Decoded, codec_decode, handle_decode_error, extract_yaml_type_meta,
  register_list, finish_decode, decode_given, decode_unknown, decode_new,
}

module _ {S O Y : Type 0} (api : Objects O) (scheme : Scheme S O) (trees : Trees Y)
    (library : Library S O) (opts : DecodingOptions) where
  -- A decoded object is one that the codec gave, to which the document was added.
  abbrev FromCodec : Str → Str → O → Type 0
  FromCodec doc ct out =
      (obj : O) × (out ≡ try_to_preserve_comments api trees opts.preserve_comments doc obj ct)

  finish_decode-FromCodec :
      (doc ct : Str) (given : Bool) (decoded : Decoded O) (out : O)
      → finish_decode api scheme trees library opts doc ct given decoded ≡ ok out
      → FromCodec doc ct out
  unfolding finish_decode
  finish_decode-FromCodec doc ct given decoded out h = elim (Option-cases decoded.obj) [
    | inl nil ↦ absurd (ground (arith, nil, h))
    | inr (obj, came) ↦ elim (Bool-cases (given && not decoded.is_into)) [
      | inl other ↦ absurd (ground (arith, came, other, h))
      | inr fine ↦ (obj, ground (arith, came, fine, h))
    ]
  ]

  handle_decode_error-fails :
      (s : S) (doc : Str) (e : Error) (out : O)
      → handle_decode_error api scheme trees library s doc e ≡ ok out
      → (ct : Str) → FromCodec doc ct out
  unfolding handle_decode_error
  handle_decode_error-fails s doc e out h ct =
      elim (Outcome-cases (extract_yaml_type_meta api scheme trees library doc)) [
        | inl (gvk, typed) ↦ absurd (ground (arith, typed, h))
        | inr (inl (x, failed)) ↦ absurd (ground (arith, failed, h))
        | inr (inr died) ↦ absurd (ground (arith, died, h))
      ]

  decode_given-FromCodec :
      (s : S) (doc ct : Str) (into out : O)
      → (decode_given api scheme trees library opts s doc into ct).1 ≡ ok out
      → FromCodec doc ct out
  unfolding decode_given
  decode_given-FromCodec s doc ct into out h =
      let s1 = register_list api scheme trees library opts s in
      elim (Outcome-cases (codec_decode api scheme trees library opts s1 doc (some into))) [
        | inl (decoded, came) ↦
            finish_decode-FromCodec doc ct true decoded out (ground (arith, came, h))
        | inr (inl (e, failed)) ↦
            handle_decode_error-fails s1 doc e out (ground (arith, failed, h)) ct
        | inr (inr died) ↦ absurd (ground (arith, died, h))
      ]

  decode_new-FromCodec :
      (s : S) (doc ct : Str) (out : O)
      → (decode_new api scheme trees library opts s doc ct).1 ≡ ok out
      → FromCodec doc ct out
  unfolding decode_new decode_unknown
  decode_new-FromCodec s doc ct out h =
      let s1 = register_list api scheme trees library opts s in
      elim (Outcome-cases (codec_decode api scheme trees library opts s1 doc none)) [
        | inl (decoded, came) ↦
            finish_decode-FromCodec doc ct false decoded out (ground (arith, came, h))
        | inr (inl (e, failed)) ↦
            elim (Bool-cases (opts.decode_unknown && library.is_not_registered_error e)) [
              | inl retry ↦
                  decode_given-FromCodec s1 doc ct api.unknown out
                    (ground (arith, failed, retry, h))
              | inr other ↦
                  handle_decode_error-fails s1 doc e out (ground (arith, failed, other, h)) ct
            ]
        | inr (inr died) ↦ absurd (ground (arith, died, h))
      ]

  module _ (keeps : KeepsAnnotations api) (base64 : Decodes api trees) where
    is_meta-preserved :
        (doc : Str) (obj : O)
        → is_meta api (try_to_preserve_comments api trees true doc obj yaml) ≡ is_meta api obj
    unfolding try_to_preserve_comments set_comment_source_bytes
    is_meta-preserved doc obj = elim (Bool-cases (is_meta api obj)) [
      | inl meta ↦ ground (
        arith,
        meta,
        is_meta-set api keeps preserve_comments_annotation (trees.encode_to_string doc) obj,
      )
      | inr other ↦ ground (arith, other)
    ]

    -- A YAML document that was decoded with comments, into an object with metadata, is the comment
    -- source of that object.
    pub decode_new-comment_source :
        (s : S) (doc : Str) (out : O)
        → opts.preserve_comments ≡ true
        → (decode_new api scheme trees library opts s doc yaml).1 ≡ ok out
        → is_meta api out ≡ true
        → get_comment_source api trees out ≡ trees.parse doc
    decode_new-comment_source s doc out wanted h meta =
        let (obj, same) = decode_new-FromCodec s doc yaml out h in
        let kept = same ∙ ap (λ b. try_to_preserve_comments api trees b doc obj yaml) wanted in
        let has_meta = sym (is_meta-preserved doc obj) ∙ ap (is_meta api) (sym kept) ∙ meta in
        ap (get_comment_source api trees) kept
        ∙ (try_to_preserve_comments-Stores api trees keeps base64 doc obj has_meta).source

    -- If a YAML document is decoded with comments into an object with metadata, and the object is
    -- encoded to YAML with comments, then the comments are copied from the tree of that document.
    pub decode_new-encode_onto :
        {W : Type 0} (s : S) (doc : Str) (out : O) (prior : Y) (sink : FrameSink W)
        (version_encode : O → Outcome Str) (w : W)
        → opts.preserve_comments ≡ true
        → (decode_new api scheme trees library opts s doc yaml).1 ≡ ok out
        → is_meta api out ≡ true
        → trees.parse doc ≡ ok prior
        → sink.content_type ≡ yaml
        → encode_with_comment_support api trees sink true version_encode out w
          ≡ encode_onto api trees sink version_encode prior out w
    unfolding get_comment_source encode_with_comment_support encode_stored
    decode_new-encode_onto s doc out prior sink version_encode w wanted h meta parsed is_yaml =
        let source : get_comment_source_meta api trees out ≡ ok prior =
          ground (arith, meta, decode_new-comment_source s doc out wanted h meta, parsed) in
        let yes = ap (λ c. str_eq c yaml) is_yaml ∙ (str_eq_iff yaml yaml).1 refl in
        ap
          (λ b.
            if not b
            then no_annotation_wrapper api trees (normal_encode sink version_encode) out w
            else encode_stored api trees sink version_encode out w
                (get_comment_source_meta api trees out))
          yes
        ∙ ap (encode_stored api trees sink version_encode out w) source

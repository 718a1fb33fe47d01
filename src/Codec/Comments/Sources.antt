-- ===== src/Codec/Comments/Sources.antt =====
-- pkg/serializer/comments.go: the document that is stored in an object is found again.
use libgitops.Prelude.{
  ◌≡◌, refl, ◌∙◌, ap, subst, true, false, some, arith, if◌then◌else◌, Option-cases, Bool-cases, inl,
  inr,
}
use libgitops.Prelude.Text.{Str, str_eq, str_eq_iff}
use libgitops.Prelude.Outcome.{bind-ok, ok}
use libgitops.Raw.Content.{yaml}
use libgitops.Codec.{Objects}
use libgitops.Codec.Annotations.{
  is_meta, get_annotation, set_annotation, KeepsAnnotations, get_annotation-set, is_meta-set,
}
use libgitops.Codec.Comments.{
  preserve_comments_annotation, Trees, get_comment_source_meta, get_comment_source,
  set_comment_source_bytes, set_comment_source, try_to_preserve_comments,
}

module _ {O Y : Type 0} (api : Objects O) (trees : Trees Y) where
  -- The object holds the document, and is otherwise like the one that it was made of.
  pub record Stores (text : Str) (obj out : O) : Type 0 where
    pub source : get_comment_source api trees out ≡ trees.parse text
    pub others :
        (key : Str)
        → str_eq preserve_comments_annotation key ≡ false
        → get_annotation api key out ≡ get_annotation api key obj

  -- Package base64 decodes what it has encoded.
  pub record Decodes : Type 0 where
    pub decode_encode : (text : Str) → trees.decode_string (trees.encode_to_string text) ≡ ok text

  module _ (keeps : KeepsAnnotations api) (base64 : Decodes) where
    set_annotation-Stores :
        (text : Str) (obj : O)
        → is_meta api obj ≡ true
        → Stores text obj
            (set_annotation api preserve_comments_annotation (trees.encode_to_string text) obj)
    unfolding get_comment_source get_comment_source_meta
    set_annotation-Stores text obj meta =
        let key1 = preserve_comments_annotation in
        let val = trees.encode_to_string text in
        let same =
          ap (λ b. if b then some val else get_annotation api key1 obj)
            ((str_eq_iff key1 key1).1 refl) in
        record {
          source = ground (
            arith,
            is_meta-set api keeps key1 val obj,
            meta,
            get_annotation-set api keeps key1 key1 val obj ∙ same,
            base64.decode_encode text,
          );
          others = λ key other.
              get_annotation-set api keeps key key1 val obj
              ∙ ap (λ b. if b then some val else get_annotation api key obj) other;
        }

    set_comment_source_bytes-Stores :
        (text : Str) (obj out : O)
        → set_comment_source_bytes api trees obj text ≡ some out
        → Stores text obj out
    unfolding set_comment_source_bytes
    set_comment_source_bytes-Stores text obj out h = elim (Bool-cases (is_meta api obj)) [
      | inl meta ↦
          subst (λ o. Stores text obj o) (ground (arith, meta, h))
            (set_annotation-Stores text obj meta)
      | inr other ↦ absurd (ground (arith, other, h))
    ]

    -- If the comment source of an object was set, then it is got again, parsed from the text that was
    -- set, and every other annotation is as before, if base64 decodes what it encoded.
    pub get_comment_source-set :
        (obj out : O) (source : Y)
        → set_comment_source api trees obj source ≡ ok out
        → (text : Str) × (trees.to_string source ≡ ok text) × Stores text obj out
    unfolding set_comment_source
    get_comment_source-set obj out source h =
        let (text, printed, rest) = bind-ok (trees.to_string source) _ out h in
        elim (Option-cases (set_comment_source_bytes api trees obj text)) [
          | inl lost ↦ absurd (ground (arith, lost, rest))
          | inr (o, set) ↦ (
            text,
            printed,
            set_comment_source_bytes-Stores text obj out (ground (arith, set, rest)),
          )
        ]

    -- What decoding with comments keeps, for YAML and an object with metadata.
    pub try_to_preserve_comments-Stores :
        (doc : Str) (obj : O)
        → is_meta api obj ≡ true
        → Stores doc obj (try_to_preserve_comments api trees true doc obj yaml)
    unfolding try_to_preserve_comments set_comment_source_bytes
    try_to_preserve_comments-Stores doc obj meta =
        subst (λ o. Stores doc obj o) (ground (arith, meta)) (set_annotation-Stores doc obj meta)

-- ===== src/Codec/Comments.antt =====
-- pkg/serializer/comments.go: the original document in an annotation of the object, from decoding
-- to encoding. Base64, the YAML trees and the copying of comments between them are parameters.
pub mod Laws
pub mod Sources
use libgitops.Prelude.{
  Bool, true, false, not, ◌&&◌, Option, none, some, List, [], ◌++◌, if◌then◌else◌,
}
use libgitops.Prelude.Text.{Str, bytes, str_eq}
use libgitops.Prelude.Outcome.{
  Outcome, Done, Error, ok, err, panic, ◌>>=◌, ◌>>◌, no_object_meta, no_stored_comments,
  unrecognized_type, crd_conversion,
}
use libgitops.Raw.Content.{yaml}
use libgitops.Codec.{Objects}
use libgitops.Codec.Annotations.{is_meta, get_annotation, set_annotation, delete_annotation}

-- `preserveCommentsAnnotation`
abbrev pub preserve_comments_annotation : Str
preserve_comments_annotation = bytes "serializer.libgitops.weave.works/original-data"

-- What is used of package base64, of kyaml with its trees `Y`, and of pkg/serializer/comments.
pub record Trees (Y : Type 0) : Type 0 where
  pub encode_to_string : Str → Str
  pub decode_string : Str → Outcome Str
  pub parse : Str → Outcome Y
  pub to_string : Y → Outcome Str
  -- `comments.CopyComments(from, to, true)`, which returns the tree that it writes to.
  pub copy_comments : Y → Y → Outcome Y
  pub must_string : Y → Outcome Str

-- What a `FrameWriter` of the state `W` does with one call of `Write`, and its content type.
pub record FrameSink (W : Type 0) : Type 0 where
  pub write : Str → W → W × Done
  pub content_type : Str

-- The result of a call that is given an object and a frame writer.
abbrev pub Step : Type 0 → Type 0 → Type 0
Step O W = O × W × Done

-- A call that ends before anything is written.
abbrev pub write_ok : {W : Type 0} → FrameSink W → W → Outcome Str → W × Done
write_ok sink w (ok text) = sink.write text w
write_ok sink w (err e) = (w, err e)
write_ok sink w panic = (w, panic)

-- `normalEncodeFunc`: a version encoder gives the text of an object, and writes it by one call.
unfoldable pub normal_encode : {O W : Type 0} → FrameSink W → (O → Outcome Str) → O → W → Step O W
normal_encode sink version_encode obj w =
    let r = write_ok sink w (version_encode obj) in (obj, r.0, r.1)

-- The YAML frame writer of a new buffer, for the one call of `Write` that it gets: the first text
-- that a YAML writer writes has no separator before it.
abbrev pub buffer_sink : FrameSink Str
buffer_sink = record { write = λ text buf. (buf ++ text, ok tt); content_type = yaml }

-- `errors.Is(err, ErrNoStoredComments)`
unfoldable pub is_no_stored_comments : Error → Bool
is_no_stored_comments no_stored_comments = true
is_no_stored_comments (unrecognized_type cause gvk e) = is_no_stored_comments e
is_no_stored_comments (crd_conversion cause gvk e) = is_no_stored_comments e
is_no_stored_comments _ = false

module _ {O Y : Type 0} (api : Objects O) (trees : Trees Y) where
  -- `noAnnotationWrapper`. The deferred call runs also after an error and a panic.
  unfoldable pub no_annotation_wrapper : {W : Type 0} → (O → W → Step O W) → O → W → Step O W
  no_annotation_wrapper fn metaobj w =
      elim (get_annotation api preserve_comments_annotation metaobj) [
        | none ↦ fn metaobj w
        | some val ↦
            let r = fn (delete_annotation api preserve_comments_annotation metaobj) w in
            (set_annotation api preserve_comments_annotation val r.0, r.1, r.2)
      ]

  -- `getCommentSourceMeta`
  unfoldable pub get_comment_source_meta : O → Outcome Y
  get_comment_source_meta metaobj = elim (get_annotation api preserve_comments_annotation metaobj) [
    | none ↦ err no_stored_comments
    | some source ↦ trees.decode_string source >>= trees.parse
  ]

  -- `GetCommentSource`
  unfoldable pub get_comment_source : O → Outcome Y
  get_comment_source obj =
      if not (is_meta api obj) then err no_object_meta else get_comment_source_meta obj

  -- `setCommentSourceBytes`, whose result is the object, and none for false.
  unfoldable pub set_comment_source_bytes : O → Str → Option O
  set_comment_source_bytes obj source =
      if not (is_meta api obj)
      then none
      else some
          (set_annotation api preserve_comments_annotation (trees.encode_to_string source) obj)

  -- `SetCommentSource` of a tree that is not nil.
  unfoldable pub set_comment_source : O → Y → Outcome O
  set_comment_source obj source = do
    str ← trees.to_string source
    elim (set_comment_source_bytes obj str) [ none ↦ err no_object_meta | some o ↦ ok o ]

  -- `tryToPreserveComments`, with the option PreserveComments.
  unfoldable pub try_to_preserve_comments : Bool → Str → O → Str → O
  try_to_preserve_comments preserve doc obj ct =
      if not (preserve && str_eq ct yaml)
      then obj
      else elim (set_comment_source_bytes obj doc) [ none ↦ obj | some o ↦ o ]

  module _ {W : Type 0} (sink : FrameSink W) where
    -- What `encodeWithCommentSupport` does with the temporary buffer.
    unfoldable pub copy_onto : Y → W → Step O Str → Step O W
    copy_onto prior w r =
        let written = write_ok sink w do
          r.2
          after ← trees.parse r.1
          copied ← trees.copy_comments prior after
          trees.must_string copied
        in (r.0, written.0, written.1)

    -- The end of `encodeWithCommentSupport`, of an object that holds comments.
    unfoldable pub encode_onto : (O → Outcome Str) → Y → O → W → Step O W
    encode_onto version_encode prior obj w =
        copy_onto prior w (no_annotation_wrapper (normal_encode buffer_sink version_encode) obj [])

    -- What follows after the stored comments are looked up.
    unfoldable pub encode_stored : (O → Outcome Str) → O → W → Outcome Y → Step O W
    encode_stored version_encode obj w (ok prior) = encode_onto version_encode prior obj w
    encode_stored version_encode obj w (err e) =
        if is_no_stored_comments e then normal_encode sink version_encode obj w else (obj, w, err e)
    encode_stored version_encode obj w panic = (obj, w, panic)

    -- `encodeWithCommentSupport`, with the option PreserveComments.
    unfoldable pub encode_with_comment_support : Bool → (O → Outcome Str) → O → W → Step O W
    encode_with_comment_support preserve version_encode obj w =
        if not preserve
        then no_annotation_wrapper (normal_encode sink version_encode) obj w
        else if not (str_eq sink.content_type yaml)
        then no_annotation_wrapper (normal_encode sink version_encode) obj w
        else encode_stored version_encode obj w (get_comment_source_meta obj)

-- ===== src/Codec/Comments/Laws.antt =====
-- pkg/serializer/comments.go: the annotation with the document is never encoded and never lost.
use libgitops.Prelude.{
  ◌≡◌, refl, ◌∙◌, sym, ap, Bool, true, false, not, none, some, [], arith, if◌then◌else◌,
  Option-cases, Bool-cases, ◌⊎◌, inl, inr,
}
use libgitops.Prelude.Text.{Str, str_eq, str_eq_iff}
use libgitops.Prelude.Outcome.{Outcome, Error, ok, err, panic, ◌>>=◌}
use libgitops.Raw.Content.{yaml}
use libgitops.Codec.{Objects}
use libgitops.Codec.Annotations.{
  get_annotation, set_annotation, delete_annotation, KeepsAnnotations, get_annotation-set,
  get_annotation-delete,
}
use libgitops.Codec.Comments.{
  preserve_comments_annotation, Trees, FrameSink, Step, write_ok, normal_encode, buffer_sink,
  is_no_stored_comments, no_annotation_wrapper, copy_onto, get_comment_source_meta, encode_onto,
  encode_stored, encode_with_comment_support,
}

module _ {O : Type 0} (api : Objects O) where
  -- The object has no document in its annotations.
  abbrev pub IsClean : O → Type 0
  IsClean obj = get_annotation api preserve_comments_annotation obj ≡ none

  -- Two ways to encode that agree on the objects that have no document.
  abbrev pub AgreeOnClean : {A : Type 0} → (O → A) → (O → A) → Type 0
  AgreeOnClean f g = (obj : O) → IsClean obj → f obj ≡ g obj

  str_eq_refl : (s : Str) → str_eq s s ≡ true
  str_eq_refl s = ground (arith, str_eq_iff s s)

  deleted-IsClean :
      KeepsAnnotations api
      → (obj : O) → IsClean (delete_annotation api preserve_comments_annotation obj)
  deleted-IsClean keeps obj =
      get_annotation-delete api keeps preserve_comments_annotation preserve_comments_annotation obj
      ∙ ap (λ b. if b then none else get_annotation api preserve_comments_annotation obj)
          (str_eq_refl preserve_comments_annotation)

module _ {O Y : Type 0} (api : Objects O) (trees : Trees Y) (keeps : KeepsAnnotations api) where
  no_annotation_wrapper-agree :
      {W : Type 0} (f g : O → W → Step O W)
      → ((obj : O) (w : W) → IsClean api obj → f obj w ≡ g obj w)
      → (obj : O) (w : W)
      → no_annotation_wrapper api trees f obj w ≡ no_annotation_wrapper api trees g obj w
  unfolding no_annotation_wrapper
  no_annotation_wrapper-agree f g agree obj w =
      let clean = delete_annotation api preserve_comments_annotation obj in
      let deleted = deleted-IsClean api keeps obj in
      elim (Option-cases (get_annotation api preserve_comments_annotation obj)) [
        | inl lost ↦ ground (arith, lost, agree obj w lost)
        | inr (val, found) ↦ ground (arith, found, agree clean w deleted)
      ]

  found_wrapper :
      {W : Type 0} (f : O → W → Step O W) (obj : O) (w : W) (val : Str)
      → get_annotation api preserve_comments_annotation obj ≡ some val
      → no_annotation_wrapper api trees f obj w ≡ (
          let r = f (delete_annotation api preserve_comments_annotation obj) w in
          (set_annotation api preserve_comments_annotation val r.0, r.1, r.2))
  unfolding no_annotation_wrapper
  found_wrapper f obj w val found = ground (arith, found)

  put_back :
      (key key1 val : Str) (obj out : O)
      → get_annotation api key1 obj ≡ some val
      → get_annotation api key out ≡ get_annotation api key (delete_annotation api key1 obj)
      → get_annotation api key (set_annotation api key1 val out) ≡ get_annotation api key obj
  put_back key key1 val obj out found kept =
      let set = get_annotation-set api keeps key key1 val out in
      let deleted = kept ∙ get_annotation-delete api keeps key key1 obj in
      elim (Bool-cases (str_eq key1 key)) [
        | inl eq ↦
            let same =
              ap (λ k. get_annotation api k obj) (sym ((str_eq_iff key1 key).0 eq)) ∙ found in
            ground (arith, set, eq, same)
        | inr other ↦ ground (arith, set, deleted, other)
      ]

  -- The wrapper gives back every annotation, if the call leaves them as they are.
  pub get_annotation-no_annotation_wrapper :
      {W : Type 0} (f : O → W → Step O W)
      → ((key : Str) (obj : O) (w : W)
          → get_annotation api key (f obj w).0 ≡ get_annotation api key obj)
      → (key : Str) (obj : O) (w : W)
      → get_annotation api key (no_annotation_wrapper api trees f obj w).0
        ≡ get_annotation api key obj
  unfolding no_annotation_wrapper
  get_annotation-no_annotation_wrapper f kept key obj w =
      let clean = delete_annotation api preserve_comments_annotation obj in
      elim (Option-cases (get_annotation api preserve_comments_annotation obj)) [
        | inl lost ↦ ground (arith, lost, kept key obj w)
        | inr (val, found) ↦
            ap (λ r. get_annotation api key r.0) (found_wrapper f obj w val found)
            ∙ put_back key preserve_comments_annotation val obj (f clean w).0 found
                (kept key clean w)
      ]

  normal_encode-agree :
      {W : Type 0} (sink : FrameSink W) (f g : O → Outcome Str)
      → AgreeOnClean api f g
      → (obj : O) (w : W) → IsClean api obj
      → normal_encode sink f obj w ≡ normal_encode sink g obj w
  unfolding normal_encode
  normal_encode-agree sink f g agree obj w clean =
      ap (λ text. (obj, (write_ok sink w text).0, (write_ok sink w text).1)) (agree obj clean)

  encode_onto-agree :
      {W : Type 0} (sink : FrameSink W) (f g : O → Outcome Str)
      → AgreeOnClean api f g
      → (prior : Y) (obj : O) (w : W)
      → encode_onto api trees sink f prior obj w ≡ encode_onto api trees sink g prior obj w
  unfolding encode_onto
  encode_onto-agree sink f g agree prior obj w = ap (copy_onto api trees sink prior w) (
      no_annotation_wrapper-agree (normal_encode buffer_sink f) (normal_encode buffer_sink g)
        (λ o buf clean. normal_encode-agree buffer_sink f g agree o buf clean) obj [])

  encode_stored-agree :
      {W : Type 0} (sink : FrameSink W) (f g : O → Outcome Str)
      → AgreeOnClean api f g
      → (obj : O) (w : W) (stored : Outcome Y)
      → ((e : Error) → stored ≡ err e → (is_no_stored_comments e ≡ false) ⊎ IsClean api obj)
      → encode_stored api trees sink f obj w stored ≡ encode_stored api trees sink g obj w stored
  unfolding encode_stored
  encode_stored-agree sink f g agree obj w (ok prior) h =
      encode_onto-agree sink f g agree prior obj w
  encode_stored-agree sink f g agree obj w (err e) h = elim (h e refl) [
    | inl other ↦ ground (arith, other)
    | inr clean ↦
        ap (λ r. if is_no_stored_comments e then r else (obj, w, err e))
          (normal_encode-agree sink f g agree obj w clean)
  ]
  encode_stored-agree sink f g agree obj w panic h = refl

  branches-agree :
      {A : Type 0} (b : Bool) {x y z v : A}
      → x ≡ y
      → z ≡ v
      → (if b then x else z) ≡ (if b then y else v)
  branches-agree true p q = p
  branches-agree false p q = q

  -- Package base64 and the YAML parser never return `ErrNoStoredComments`.
  pub record IsForeign : Type 0 where
    pub other_error :
        (text : Str) (e : Error)
        → (trees.decode_string text >>= trees.parse) ≡ err e
        → is_no_stored_comments e ≡ false

  failed_source :
      IsForeign
      → (obj : O) (e : Error) → get_comment_source_meta api trees obj ≡ err e
      → (is_no_stored_comments e ≡ false) ⊎ IsClean api obj
  unfolding get_comment_source_meta
  failed_source foreign obj e h =
      elim (Option-cases (get_annotation api preserve_comments_annotation obj)) [
        | inl lost ↦ inr lost
        | inr (text, found) ↦ inl (foreign.other_error text e (ground (arith, found, h)))
      ]

  -- The document in the annotations of an object never gets into what is encoded: two encoders that
  -- agree on the objects without it give the same result for every object with metadata, if
  -- package base64 and the YAML parser never return ErrNoStoredComments.
  pub encode_with_comment_support-agree :
      IsForeign
      → {W : Type 0} (sink : FrameSink W) (preserve : Bool) (f g : O → Outcome Str)
      → AgreeOnClean api f g
      → (obj : O) (w : W)
      → encode_with_comment_support api trees sink preserve f obj w
        ≡ encode_with_comment_support api trees sink preserve g obj w
  unfolding encode_with_comment_support
  encode_with_comment_support-agree foreign sink preserve f g agree obj w =
      let wrapped =
        no_annotation_wrapper-agree (normal_encode sink f) (normal_encode sink g)
          (λ o v clean. normal_encode-agree sink f g agree o v clean) obj w in
      branches-agree (not preserve) wrapped (
        branches-agree (not (str_eq sink.content_type yaml)) wrapped (
          encode_stored-agree sink f g agree obj w (get_comment_source_meta api trees obj)
            (λ e failed. failed_source foreign obj e failed)))

  normal_encode-kept :
      {W : Type 0} (sink : FrameSink W) (f : O → Outcome Str) (key : Str) (obj : O) (w : W)
      → get_annotation api key (normal_encode sink f obj w).0 ≡ get_annotation api key obj
  unfolding normal_encode
  normal_encode-kept sink f key obj w = refl

  branch :
      {W : Type 0} (key : Str) (obj : O) (b : Bool) (x y : Step O W)
      → get_annotation api key x.0 ≡ get_annotation api key obj
      → get_annotation api key y.0 ≡ get_annotation api key obj
      → get_annotation api key (if b then x else y).0 ≡ get_annotation api key obj
  branch key obj true x y p q = p
  branch key obj false x y p q = q

  stored_kept :
      {W : Type 0} (sink : FrameSink W) (f : O → Outcome Str) (key : Str) (obj : O) (w : W)
      (stored : Outcome Y)
      → get_annotation api key (encode_stored api trees sink f obj w stored).0
        ≡ get_annotation api key obj
  unfolding encode_stored encode_onto copy_onto
  stored_kept sink f key obj w (ok prior) =
      get_annotation-no_annotation_wrapper (normal_encode buffer_sink f)
        (normal_encode-kept buffer_sink f) key obj []
  stored_kept sink f key obj w (err e) =
      branch key obj (is_no_stored_comments e) _ _ (normal_encode-kept sink f key obj w) refl
  stored_kept sink f key obj w panic = refl

  -- Encoding leaves every annotation of the object as it was.
  pub get_annotation-encode_with_comment_support :
      {W : Type 0} (sink : FrameSink W) (preserve : Bool) (f : O → Outcome Str) (key : Str)
      (obj : O) (w : W)
      → get_annotation api key (encode_with_comment_support api trees sink preserve f obj w).0
        ≡ get_annotation api key obj
  unfolding encode_with_comment_support
  get_annotation-encode_with_comment_support sink preserve f key obj w =
      let normal =
        get_annotation-no_annotation_wrapper (normal_encode sink f) (normal_encode-kept sink f) key
          obj w in
      branch key obj (not preserve) _ _ normal (
        branch key obj (not (str_eq sink.content_type yaml)) _ _ normal
          (stored_kept sink f key obj w (get_comment_source_meta api trees obj)))

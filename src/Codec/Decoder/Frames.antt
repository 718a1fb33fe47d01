-- ===== src/Codec/Decoder/Frames.antt =====
-- pkg/serializer/decode.go: `DecodeAll` decodes the frames that `ReadFrameList` reads.
use libgitops.Prelude.{
  ℕ, zero, suc, ◌≡◌, refl, ◌∙◌, sym, ap, subst, true, false, Option, none, some, List, [], ◌∷◌,
  ◌++◌, append-nil, append_assoc, arith, Option-cases, inl, inr,
}
use libgitops.Prelude.Text.{Str}
use libgitops.Prelude.Outcome.{Outcome, Outcome-cases, ok, err, panic, Error, eof}
use libgitops.Frames.{Source, FrameReader, read_frame, read_frames, read_frame_list}
use libgitops.Codec.{Objects, Scheme}
use libgitops.Codec.Comments.{Trees}
use libgitops.Codec.Decoder.{
  DecodingOptions, Library, is_eof, decode_new, extract_nested_objects, decode, decode_loop,
  decode_all,
}

-- An outcome that the loop of `DecodeAll` does not take for the end of the stream.
abbrev pub NotEof : {A : Type 0} → Outcome A → Type 0
NotEof (ok a) = Unit
NotEof (err e) = is_eof e ≡ false
NotEof panic = Unit

-- The objects of an outcome, after others.
abbrev pub after : {A : Type 0} → List A → Outcome (List A) → Outcome (List A)
after before (ok objs) = ok (before ++ objs)
after before (err e) = err e
after before panic = panic

-- The objects of what was decoded, and of what follows.
unfoldable pub then_objects :
    {S O : Type 0} → (S → S × Outcome (List O)) → S × Outcome (List O) → S × Outcome (List O)
then_objects rest (s, ok objs) = let r = rest s in (r.0, after objs r.1)
then_objects rest (s, err e) = (s, err e)
then_objects rest (s, panic) = (s, panic)

after-after :
    {A : Type 0} (xs ys : List A) (out : Outcome (List A))
    → after (xs ++ ys) out ≡ after xs (after ys out)
after-after xs ys (ok objs) = ap ok (append_assoc xs ys objs)
after-after xs ys (err e) = refl
after-after xs ys panic = refl

after-nil : {A : Type 0} (out : Outcome (List A)) → after [] out ≡ out
after-nil (ok objs) = refl
after-nil (err e) = refl
after-nil panic = refl

NotEof-after :
    {A : Type 0} (xs : List A) (out : Outcome (List A)) → NotEof (after xs out) → NotEof out
NotEof-after xs (ok objs) h = h
NotEof-after xs (err e) h = h
NotEof-after xs panic h = h

module _ {S O Y : Type 0} (api : Objects O) (scheme : Scheme S O) (trees : Trees Y)
    (library : Library S O) (opts : DecodingOptions) (ct : Str) where
  -- The objects of one frame: the object or, of a list, its items.
  unfoldable pub frame_objects : S → Str → S × Outcome (List O)
  frame_objects s frame =
      let r = decode_new api scheme trees library opts s frame ct in
      elim r.1 [
        | ok obj ↦ extract_nested_objects api scheme trees library opts r.0 obj ct
        | err e ↦ (r.0, err e)
        | panic ↦ (r.0, panic)
      ]

  -- The objects of a list of frames, each of the scheme that the one before leaves.
  unfoldable pub decode_frames : S → List Str → S × Outcome (List O)
  decode_frames s [] = (s, ok [])
  decode_frames s (frame ∷ frames) =
      then_objects (λ s1. decode_frames s1 frames) (frame_objects s frame)

  module _ {R : Type 0} (source : Source R) where
    -- What the rounds of `DecodeAll` give for the frames of an outcome.
    Reaches : ℕ → ℕ → FrameReader R → List Str → Type 0
    Reaches fuel each fr frames =
        (s s1 : S) (before : List O) (out : Outcome (List O))
        → decode_frames s frames ≡ (s1, out)
        → NotEof out
        → (fr1 : FrameReader R) × (decode_loop api scheme trees library opts source ct fuel each s
              before fr
            ≡ some (fr1, s1, after before out))

    read_end :
        (e : Error) (fr fr1 : FrameReader R) (frames out : List Str)
        → ◌≡◌ {A = Option (FrameReader R × List Str × Option Error)}
            (elim e [ eof ↦ some (fr, frames, none) | other ↦ some (fr, [], some other) ])
            (some (fr1, out, none))
        → (is_eof e ≡ true) × (out ≡ frames)
    unfolding is_eof
    read_end eof fr fr1 frames out h = (refl, ground (arith, h))
    read_end e fr fr1 frames out h = absurd (ground (arith, h))

    -- What one round of `DecodeAll` does with a frame that was read.
    after_frame :
        ℕ
        → ℕ
        → List O
        → FrameReader R
        → S × Outcome (List O)
        → Option (FrameReader R × S × Outcome (List O))
    after_frame fuel each before fr (s, ok objs) =
        decode_loop api scheme trees library opts source ct fuel each s (before ++ objs) fr
    after_frame fuel each before fr (s, err e) = some (fr, s, err e)
    after_frame fuel each before fr (s, panic) = some (fr, s, panic)

    round :
        (fuel each : ℕ) (fr : FrameReader R) (r : FrameReader R × Str × Option Error) (s : S)
        (before : List O)
        → read_frame source each fr ≡ some r
        → r.2 ≡ none
        → NotEof (frame_objects s r.1).1
        → decode_loop api scheme trees library opts source ct (suc fuel) each s before fr
          ≡ after_frame fuel each before r.0 (frame_objects s r.1)
    unfolding decode_loop decode frame_objects after_frame
    round fuel each fr r s before came fine ne =
        let d = decode_new api scheme trees library opts s r.1 ct in
        elim (Outcome-cases d.1) [
          | inl (obj, is_ok) ↦
              let nested = extract_nested_objects api scheme trees library opts d.0 obj ct in
              elim (Outcome-cases nested.1) [
                | inl (objs, has) ↦ ground (arith, came, fine, is_ok, has)
                | inr (inl (e, has)) ↦ ground (arith, came, fine, is_ok, has)
                | inr (inr has) ↦ ground (arith, came, fine, is_ok, has)
              ]
          | inr (inl (e, is_err)) ↦ ground (arith, came, fine, is_err, ne)
          | inr (inr is_panic) ↦ ground (arith, came, fine, is_panic)
        ]

    then_NotEof :
        (frames : List Str) (p : S × Outcome (List O)) (s1 : S) (out : Outcome (List O))
        → then_objects (λ s2. decode_frames s2 frames) p ≡ (s1, out)
        → NotEof out
        → NotEof p.1
    unfolding then_objects
    then_NotEof frames (s, ok objs) s1 out h ne = tt
    then_NotEof frames (s, err e) s1 out h ne = subst NotEof (sym (ap (λ q. q.1) h)) ne
    then_NotEof frames (s, panic) s1 out h ne = tt

    objects_step :
        (fuel each : ℕ) (fr : FrameReader R) (frames : List Str)
        → Reaches fuel each fr frames
        → (before : List O) (p : S × Outcome (List O)) (s1 : S) (out : Outcome (List O))
        → then_objects (λ s2. decode_frames s2 frames) p ≡ (s1, out)
        → NotEof out
        → (fr1 : FrameReader R) × (after_frame fuel each before fr p
            ≡ some (fr1, s1, after before out))
    unfolding then_objects after_frame Reaches
    objects_step fuel each fr frames rest before (s, ok objs) s1 out h ne =
        let r = decode_frames s frames in
        let ends = subst NotEof (sym (ap (λ q. q.1) h)) ne in
        let (fr1, reached) = rest s r.0 (before ++ objs) r.1 refl (NotEof-after objs r.1 ends) in
        (
          fr1,
          reached
              ∙ ap (λ o. some (fr1, r.0, o)) (after-after before objs r.1)
              ∙ ap (λ q. some (fr1, q.0, after before q.1)) h,
        )
    objects_step fuel each fr frames rest before (s, err e) s1 out h ne =
        (fr, ap (λ q. some (fr, q.0, after before q.1)) h)
    objects_step fuel each fr frames rest before (s, panic) s1 out h ne =
        (fr, ap (λ q. some (fr, q.0, after before q.1)) h)

    round_end :
        (fuel each : ℕ) (fr : FrameReader R) (r : FrameReader R × Str × Option Error) (e : Error)
        (s : S) (before : List O)
        → read_frame source each fr ≡ some r
        → r.2 ≡ some e
        → is_eof e ≡ true
        → decode_loop api scheme trees library opts source ct (suc fuel) each s before fr
          ≡ some (r.0, s, ok before)
    unfolding decode_loop decode
    round_end fuel each fr r e s before came failed ended = ground (arith, came, failed, ended)

    frame_more :
        (fuel each : ℕ) (fr : FrameReader R) (r : FrameReader R × Str × Option Error)
        (frames : List Str)
        → read_frame source each fr ≡ some r
        → r.2 ≡ none
        → Reaches fuel each r.0 frames
        → Reaches (suc fuel) each fr (r.1 ∷ frames)
    unfolding Reaches decode_frames
    frame_more fuel each fr r frames came fine rest s s1 before out h ne =
        let p = frame_objects s r.1 in
        let (fr1, reached) = objects_step fuel each r.0 frames rest before p s1 out h ne in
        (fr1, round fuel each fr r s before came fine (then_NotEof frames p s1 out h ne) ∙ reached)

    frame_last :
        (fuel each : ℕ) (fr : FrameReader R) (r : FrameReader R × Str × Option Error) (e : Error)
        → read_frame source each fr ≡ some r
        → r.2 ≡ some e
        → is_eof e ≡ true
        → Reaches (suc fuel) each fr []
    unfolding Reaches decode_frames
    frame_last fuel each fr r e came failed ended s s1 before out h ne = (
      r.0,
      round_end fuel each fr r e s before came failed ended
          ∙ ap (λ b. some (r.0, s, ok b)) (sym (append-nil before))
          ∙ ap (λ p. some (r.0, p.0, after before p.1)) h,
    )

    reaches :
        (fuel each : ℕ) (fr fr1 : FrameReader R) (acc out : List Str)
        → read_frames source fuel each acc fr ≡ some (fr1, out, none)
        → (frames : List Str) × (out ≡ acc ++ frames) × Reaches fuel each fr frames
    unfolding read_frames
    reaches zero each fr fr1 acc out h = absurd (ground (arith, h))
    reaches (suc fuel) each fr fr1 acc out h = elim (Option-cases (read_frame source each fr)) [
      | inl stuck ↦ absurd (ground (arith, stuck, h))
      | inr (r, came) ↦ elim (Option-cases r.2) [
        | inl fine ↦
            let (frames, same, rest) =
              reaches fuel each r.0 fr1 (acc ++ (r.1 ∷ [])) out (ground (arith, came, fine, h)) in
            (
              r.1 ∷ frames,
              same ∙ append_assoc acc (r.1 ∷ []) frames,
              frame_more fuel each fr r frames came fine rest,
            )
        | inr (e, failed) ↦
            let ended = read_end e r.0 fr1 acc out (ground (arith, came, failed, h)) in
            ([], ended.1 ∙ sym (append-nil acc), frame_last fuel each fr r e came failed ended.0)
      ]
    ]

    -- If ReadFrameList reads every frame, and decoding the frames one by one, with the items of a
    -- list in its place, has an outcome other than io.EOF, then DecodeAll has that outcome: all the
    -- objects in order, or the first error, and the scheme is the one that this leaves.
    pub decode_all-read_frame_list :
        (fuel each : ℕ) (fr fr1 : FrameReader R) (frames : List Str) (s s1 : S)
        (out : Outcome (List O))
        → read_frame_list source fuel each fr ≡ some (fr1, frames, none)
        → decode_frames s frames ≡ (s1, out)
        → NotEof out
        → (fr2 : FrameReader R) × (decode_all api scheme trees library opts source ct fuel each s fr
            ≡ some (fr2, s1, out))
    unfolding read_frame_list decode_all Reaches
    decode_all-read_frame_list fuel each fr fr1 frames s s1 out read decoded ne =
        let (list, same, reach) = reaches fuel each fr fr1 [] frames read in
        let (fr2, reached) = reach s s1 [] out (ap (decode_frames s) (sym same) ∙ decoded) ne in
        (fr2, reached ∙ ap (λ o. some (fr2, s1, o)) (after-nil out))

-- ===== src/Frames/Writer/Laws.antt =====
-- pkg/serializer/frame_writer.go: what is in the byte array after frames are written.
use libgitops.Prelude.{
  ℕ, zero, suc, ◌+◌, ◌≤◌, ◌≡◌, refl, sym, ap, ◌∙◌, Bool, true, false, none, List, [], ◌∷◌, ◌++◌,
  length, take, drop, arith, length-append, append_assoc, append-nil,
}
use libgitops.Prelude.Text.{Str, join}
use libgitops.Frames.Writer.{
  yaml_separator, ByteWriter, copied, byte_write, YamlWriter, new_yaml_writer, to_bytes,
  write_document, yaml_write, write_frame_list,
}

pub length-take : (n : ℕ) (xs : Str) → n ≤ length xs → length (take n xs) ≡ n
length-take zero xs h = refl
length-take (suc n) [] h = ground (arith, h)
length-take (suc n) (x ∷ xs) h = omega (arith, length-take n xs (omega (arith, h)))

length-drop : (n : ℕ) (xs : Str) → n ≤ length xs → n + length (drop n xs) ≡ length xs
length-drop zero xs h = omega arith
length-drop (suc n) [] h = ground (arith, h)
length-drop (suc n) (x ∷ xs) h = omega (arith, length-drop n xs (omega (arith, h)))

pub take-append : (xs ys : Str) (n : ℕ) → n ≡ length xs → take n (xs ++ ys) ≡ xs
take-append [] ys zero h = refl
take-append [] ys (suc n) h = ground (arith, h)
take-append (x ∷ xs) ys zero h = ground (arith, h)
take-append (x ∷ xs) ys (suc n) h = ap (λ zs. x ∷ zs) (take-append xs ys n (omega (arith, h)))

-- What is written so far.
unfoldable pub written : ByteWriter → Str
written w = take w.index w.to

-- A write that fits in, and its state after it.
pub record Appended (from : Str) (w w1 : ByteWriter) : Type 0 where
  pub no_error : byte_write from w ≡ (w1, length from, none)
  pub written_after : written w1 ≡ written w ++ from
  pub index_after : w1.index ≡ w.index + length from
  pub length_after : length w1.to ≡ length w.to

pub byte_write-Appended :
    (from : Str) (w : ByteWriter)
    → w.index + length from ≤ length w.to
    → (w1 : ByteWriter) × Appended from w w1
unfolding byte_write written
byte_write-Appended from w h =
    let front = take w.index w.to in
    let back = drop (w.index + length from) w.to in
    let lf = length-take w.index w.to (omega (arith, h)) in
    let lb = length-drop (w.index + length from) w.to h in
    (
      record { to = copied from w; index = w.index + length from },
      record {
        no_error = ground (arith, h);
        written_after =
            ap (take (w.index + length from)) (sym (append_assoc front from back))
            ∙ take-append (front ++ from) back (w.index + length from)
                (omega (arith, length-append front from, lf));
        index_after = refl;
        length_after =
            omega (arith, length-append front (from ++ back), length-append from back, lf, lb);
      },
    )

-- What is written for the frames, after a frame or at the start.
text_of : Bool → List Str → Str
text_of b [] = []
text_of true (frame ∷ frames) = yaml_separator ++ (frame ++ text_of true frames)
text_of false (frame ∷ frames) = frame ++ text_of true frames

join-text_of : (frames : List Str) → join yaml_separator frames ≡ text_of false frames
unfolding join text_of
join-text_of [] = refl
join-text_of (x ∷ []) = sym (append-nil x)
join-text_of (x ∷ y ∷ ys) = ap (λ zs. x ++ (yaml_separator ++ zs)) (join-text_of (y ∷ ys))

write_frame_list-text_of :
    (frames : List Str) (b : Bool) (w : ByteWriter)
    → w.index + length (text_of b frames) ≤ length w.to
    → (y : YamlWriter) × (write_frame_list frames (record { w = w; has_written = b }) ≡ (y, none))
      × (written y.w ≡ written w ++ text_of b frames)
unfolding write_frame_list yaml_write write_document text_of
write_frame_list-text_of [] b w h =
    (record { w = w; has_written = b }, refl, sym (append-nil (written w)))
write_frame_list-text_of (frame ∷ frames) false w h =
    let rest = text_of true frames in
    let (w1, a) = byte_write-Appended frame w (omega (arith, h, length-append frame rest)) in
    let (y, reached, text) =
      write_frame_list-text_of frames true w1
        (omega (arith, h, length-append frame rest, a.index_after, a.length_after)) in
    (
      y,
      ground (arith, a.no_error, reached),
      text ∙ ap (λ xs. xs ++ rest) a.written_after ∙ append_assoc (written w) frame rest,
    )
write_frame_list-text_of (frame ∷ frames) true w h =
    let rest = text_of true frames in
    let lengths = length-append yaml_separator (frame ++ rest) in
    let (w1, a) = byte_write-Appended yaml_separator w (omega (arith, h, lengths)) in
    let (w2, c) =
      byte_write-Appended frame w1
        (omega (arith, h, lengths, length-append frame rest, a.index_after, a.length_after)) in
    let (y, reached, text) = write_frame_list-text_of frames true w2 (
      omega (
        arith,
        h,
        lengths,
        length-append frame rest,
        a.index_after,
        a.length_after,
        c.index_after,
        c.length_after,
      )) in
    (
      y,
      ground (arith, a.no_error, c.no_error, reached),
      text
          ∙ ap (λ xs. xs ++ rest) (c.written_after ∙ ap (λ xs. xs ++ frame) a.written_after)
          ∙ append_assoc (written w ++ yaml_separator) frame rest
          ∙ append_assoc (written w) yaml_separator (frame ++ rest),
    )

-- WriteFrameList of frames to a YAML writer over a byte array that is large enough succeeds, and the
-- array then starts with the frames joined by the YAML separator, before the index of the writer.
pub write_frame_list-join :
    (frames : List Str) (p : Str)
    → length (join yaml_separator frames) ≤ length p
    → (y : YamlWriter) × (write_frame_list frames (new_yaml_writer (to_bytes p)) ≡ (y, none))
      × (written y.w ≡ join yaml_separator frames)
unfolding new_yaml_writer to_bytes written
write_frame_list-join frames p h =
    let (y, reached, text) =
      write_frame_list-text_of frames false (to_bytes p)
        (omega (arith, h, ap length (join-text_of frames))) in
    (y, reached, text ∙ sym (join-text_of frames))

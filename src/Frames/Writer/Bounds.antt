-- ===== src/Frames/Writer/Bounds.antt =====
-- pkg/serializer/frame_writer.go: no write goes beyond the byte array, or over what is written.
use libgitops.Prelude.{
  ℕ, zero, suc, ◌+◌, ◌≤◌, ◌≡◌, refl, sym, ap, subst, ◌∙◌, true, List, [], ◌∷◌, length, take, ltb,
  arith, Bool-cases, Option-cases, inl, inr,
}
use libgitops.Prelude.Text.{Str}
use libgitops.Frames.Writer.{
  yaml_separator, ByteWriter, byte_write, YamlWriter, write_document, yaml_write, write_frame_list,
}
use libgitops.Frames.Writer.Laws.{written, Appended, byte_write-Appended, length-take, take-append}

take-take : (n m : ℕ) (xs : Str) → n ≤ m → take n (take m xs) ≡ take n xs
take-take zero m xs h = refl
take-take (suc n) zero xs h = absurd (ground (arith, h))
take-take (suc n) (suc m) [] h = refl
take-take (suc n) (suc m) (x ∷ xs) h = ap (λ ys. x ∷ ys) (take-take n m xs (omega (arith, h)))

-- The index is in the array.
abbrev pub IsInside : ByteWriter → Type 0
IsInside w = w.index ≤ length w.to

-- What writing does to an array: its length is as before, the index is in it and not before where
-- it was, and the bytes before that are as before.
pub record IsBounded (w w1 : ByteWriter) : Type 0 where
  pub inside : IsInside w1
  pub same_length : length w1.to ≡ length w.to
  pub forward : w.index ≤ w1.index
  pub kept : take w.index w1.to ≡ written w

no_write : (w : ByteWriter) → IsInside w → IsBounded w w
unfolding written
no_write w h = record { inside = h; same_length = refl; forward = omega arith; kept = refl }

both_writes : (a b c : ByteWriter) → IsBounded a b → IsBounded b c → IsBounded a c
unfolding written
both_writes a b c h k = record {
  inside = k.inside;
  same_length = k.same_length ∙ h.same_length;
  forward = omega (arith, h.forward, k.forward);
  kept =
      sym (take-take a.index b.index c.to h.forward)
      ∙ ap (take a.index) k.kept
      ∙ take-take a.index b.index b.to h.forward
      ∙ h.kept;
}

Appended-IsBounded :
    (from : Str) (w w1 : ByteWriter)
    → IsInside w
    → w.index + length from ≤ length w.to
    → Appended from w w1
    → IsBounded w w1
unfolding written
Appended-IsBounded from w w1 h fits a = record {
  inside = omega (arith, fits, a.index_after, a.length_after);
  same_length = a.length_after;
  forward = omega (arith, a.index_after);
  kept =
      sym (take-take w.index w1.index w1.to (omega (arith, a.index_after)))
      ∙ ap (take w.index) a.written_after
      ∙ take-append (take w.index w.to) from w.index (sym (length-take w.index w.to h));
}

over_lem :
    (from : Str) (w : ByteWriter)
    → ltb (length w.to) (w.index + length from) ≡ true
    → (byte_write from w).0 ≡ w
unfolding byte_write
over_lem from w over = ground (arith, over)

byte_write-IsBounded :
    (from : Str) (w : ByteWriter) → IsInside w → IsBounded w (byte_write from w).0
byte_write-IsBounded from w h = elim (Bool-cases (ltb (length w.to) (w.index + length from))) [
  | inl over ↦ subst (IsBounded w) (sym (over_lem from w over)) (no_write w h)
  | inr fine ↦
      let fits : w.index + length from ≤ length w.to = ground (arith, fine) in
      let (w1, a) = byte_write-Appended from w fits in
      subst (IsBounded w) (sym (ap (λ r. r.0) a.no_error)) (Appended-IsBounded from w w1 h fits a)
]

write_document-IsBounded :
    (p : Str) (y : YamlWriter) → IsInside y.w → IsBounded y.w (write_document p y).0.w
unfolding write_document
write_document-IsBounded p y h = byte_write-IsBounded p y.w h

yaml_write-IsBounded :
    (p : Str) (y : YamlWriter) → IsInside y.w → IsBounded y.w (yaml_write p y).0.w
unfolding yaml_write
yaml_write-IsBounded p y h =
    let first = byte_write-IsBounded yaml_separator y.w h in
    let w1 = (byte_write yaml_separator y.w).0 in
    let both =
      both_writes y.w w1 _ first (write_document-IsBounded p (record y { w = w1 }) first.inside) in
    elim (Bool-cases y.has_written) [
      | inl again ↦ elim (Option-cases (byte_write yaml_separator y.w).2) [
        | inl fine ↦
            let eq : (write_document p (record y { w = w1 })).0.w ≡ (yaml_write p y).0.w =
              ground (arith, again, fine) in
            subst (IsBounded y.w) eq both
        | inr (x, failed) ↦
            let eq : w1 ≡ (yaml_write p y).0.w = ground (arith, again, failed) in
            subst (IsBounded y.w) eq first
      ]
      | inr new ↦
          let eq : (write_document p y).0.w ≡ (yaml_write p y).0.w = ground (arith, new) in
          subst (IsBounded y.w) eq (write_document-IsBounded p y h)
    ]

-- Whatever is written to a YAML writer over a byte array, the length of the array is as before, the
-- index never leaves it, and no byte before the index at the start is changed.
pub write_frame_list-IsBounded :
    (frames : List Str) (y : YamlWriter)
    → IsInside y.w
    → IsBounded y.w (write_frame_list frames y).0.w
unfolding write_frame_list
write_frame_list-IsBounded [] y h = no_write y.w h
write_frame_list-IsBounded (frame ∷ frames) y h =
    let one = yaml_write-IsBounded frame y h in
    let y1 = (yaml_write frame y).0 in
    elim (Option-cases (yaml_write frame y).2) [
      | inl fine ↦
          let eq : (write_frame_list frames y1).0.w ≡ (write_frame_list (frame ∷ frames) y).0.w =
            ground (arith, fine) in
          subst (IsBounded y.w) eq
            (both_writes y.w y1.w _ one (write_frame_list-IsBounded frames y1 one.inside))
      | inr (x, failed) ↦
          let eq : y1.w ≡ (write_frame_list (frame ∷ frames) y).0.w = ground (arith, failed) in
          subst (IsBounded y.w) eq one
    ]

-- ===== src/Frames/Laws.antt =====
-- pkg/serializer/frame_reader.go: that `ReadFrame` ends, and which frames it returns.
use libgitops.Prelude.{
  ℕ, zero, suc, ◌*◌, ◌<◌, ◌≤◌, ◌≡◌, refl, Bool, true, false, Option, none, some, [], ◌++◌, length,
  ltb, arith, if◌then◌else◌, ◌⊎◌, inl, inr, ap, ◌∙◌,
}
use libgitops.Prelude.Text.{Str}
use libgitops.Prelude.Outcome.{Error, eof, short_buffer, frame_overflow}
use libgitops.Frames.{
  Source, FrameReader, Turn, read_on, close_and_return, return_frame, turn, has_content, read_round,
  read_loop, read_frame,
}

Turn-cases :
    (t : Turn)
    → ((c : ℕ) × (kept : Str) × (t ≡ read_on c kept))
      ⊎ ((e : Option Error) × (t ≡ return_frame e))
      ⊎ ((e : Option Error) × (t ≡ close_and_return e))
Turn-cases (read_on c kept) = inl (c, kept, refl)
Turn-cases (return_frame e) = inr (inl (e, refl))
Turn-cases (close_and_return e) = inr (inr (e, refl))

-- A call that has no error, or a buffer that is too short, leaves less to read.
unfoldable pub Progresses : {R : Type 0} → Source R → (R → ℕ) → Type 0
Progresses {R} source left =
    (size : ℕ) (r : R)
    → ((source.read size r).2 ≡ none) ⊎ ((source.read size r).2 ≡ some short_buffer)
    → left (source.read size r).0 < left r

-- A frame with no error is of the allowed size and not blank.
unfoldable pub Allowed : {R : Type 0} → ℕ → FrameReader R × Str × Option Error → Type 0
Allowed limit (rf, frame, e) = e ≡ none → (length frame ≤ limit) × (has_content frame ≡ true)

module _ {R : Type 0} (source : Source R) where
  -- The error of a call after which the loop reads on.
  turn-read_on :
      (c c1 : ℕ) (frame kept : Str) (e : Option Error)
      → turn c frame e ≡ read_on c1 kept
      → (e ≡ none) ⊎ (e ≡ some short_buffer)
  unfolding turn
  turn-read_on c c1 frame kept none h = inl refl
  turn-read_on c c1 frame kept (some short_buffer) h = inr refl
  turn-read_on c c1 frame kept (some eof) h = ground (arith, h)
  turn-read_on c c1 frame kept (some e) h = ground (arith, h)

  turn-none :
      (c : ℕ) (frame : Str) (e : Option Error)
      → (turn c frame e ≡ return_frame none) ⊎ (turn c frame e ≡ close_and_return none)
      → has_content frame ≡ true
  unfolding turn
  turn-none c frame none (inl h) = ground (arith, h)
  turn-none c frame none (inr h) = ground (arith, h)
  turn-none c frame (some short_buffer) (inl h) = ground (arith, h)
  turn-none c frame (some short_buffer) (inr h) = ground (arith, h)
  turn-none c frame (some e) (inl h) = ground (arith, h)
  turn-none c frame (some e) (inr h) = ground (arith, h)

  limited : Bool → Turn → Turn
  limited b t = if b then return_frame (some frame_overflow) else t

  limited-read_on :
      (b : Bool) (c c1 : ℕ) (frame kept : Str) (e : Option Error)
      → limited b (turn c frame e) ≡ read_on c1 kept
      → (e ≡ none) ⊎ (e ≡ some short_buffer)
  unfolding limited
  limited-read_on true c c1 frame kept e h = absurd (ground (arith, h))
  limited-read_on false c c1 frame kept e h = turn-read_on c c1 frame kept e h

  limited-none :
      (b : Bool) (limit c : ℕ) (frame : Str) (e : Option Error)
      → ltb limit (length frame) ≡ b
      → (limited b (turn c frame e) ≡ return_frame none)
        ⊎ (limited b (turn c frame e) ≡ close_and_return none)
      → (length frame ≤ limit) × (has_content frame ≡ true)
  unfolding limited
  limited-none true limit c frame e l (inl h) = absurd (ground (arith, h))
  limited-none true limit c frame e l (inr h) = absurd (ground (arith, h))
  limited-none false limit c frame e l h = (ground (arith, l), turn-none c frame e h)

  -- What one round of the loop says.
  round_lem :
      (c : ℕ) (frame : Str) (rf : FrameReader R)
      → (let (rf1, longer, next) = read_round source c frame rf in
          ((c1 : ℕ) (kept : Str)
            → next ≡ read_on c1 kept
            → ((source.read (c * rf.buf_size) rf.rc).2 ≡ none)
              ⊎ ((source.read (c * rf.buf_size) rf.rc).2 ≡ some short_buffer))
          × ((next ≡ return_frame none) ⊎ (next ≡ close_and_return none)
              → (length longer ≤ rf.max_frame_size) × (has_content longer ≡ true)))
  unfolding read_round limited
  round_lem c frame rf =
      let r = source.read (c * rf.buf_size) rf.rc in
      let longer = frame ++ r.1 in
      let over = ltb rf.max_frame_size (length longer) in
      (
        λ c1 kept h. limited-read_on over c c1 longer kept r.2 h,
        λ h. limited-none over rf.max_frame_size c longer r.2 refl h,
      )

  -- One round of the loop, and the state of the reader below after it.
  read_round-rc :
      (c : ℕ) (frame : Str) (rf : FrameReader R)
      → (read_round source c frame rf).0
        ≡ record rf { rc = (source.read (c * rf.buf_size) rf.rc).0 }
  unfolding read_round
  read_round-rc c frame rf = refl

  read_loop_total :
      (left : R → ℕ) (fuel c : ℕ) (frame : Str) (rf : FrameReader R)
      → Progresses source left
      → left rf.rc < fuel
      → (out : FrameReader R × Str × Option Error) × (read_loop source fuel c frame rf ≡ some out)
        × Allowed rf.max_frame_size out
  unfolding read_loop Allowed Progresses
  read_loop_total left zero c frame rf p h = absurd (ground (arith, h))
  read_loop_total left (suc fuel) c frame rf p h =
      let r = read_round source c frame rf in
      elim (Turn-cases r.2) [
        | inl (c1, kept, e) ↦
            let less = p (c * rf.buf_size) rf.rc ((round_lem c frame rf).0 c1 kept e) in
            let rf1 = record rf { rc = (source.read (c * rf.buf_size) rf.rc).0 } in
            let (out, reached, allowed) =
              read_loop_total left fuel c1 kept rf1 p (omega (arith, less, h)) in
            (out, ground (arith, e, reached, read_round-rc c frame rf), allowed)
        | inr (inl (x, e)) ↦ (
          (r.0, r.1, x),
          ground (arith, e),
          λ n. (round_lem c frame rf).1 (inl (e ∙ ap return_frame n)),
        )
        | inr (inr (x, e)) ↦ (
          (record r.0 { rc = source.close r.0.rc }, r.1, x),
          ground (arith, e),
          λ n. (round_lem c frame rf).1 (inr (e ∙ ap close_and_return n)),
        )
      ]

  -- If a call of the reader below that has no error, or a buffer that is too short, leaves less to
  -- read, then ReadFrame returns after at most one call more than there is to read. A frame that
  -- it returns without an error is not larger than the limit and not blank.
  pub read_frame_total :
      (left : R → ℕ) (rf : FrameReader R)
      → Progresses source left
      → (out : FrameReader R × Str × Option Error) × (read_frame source (suc (left rf.rc)) rf
          ≡ some out)
        × Allowed rf.max_frame_size out
  unfolding read_frame
  read_frame_total left rf p = read_loop_total left (suc (left rf.rc)) 1 [] rf p (omega arith)

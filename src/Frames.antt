-- ===== src/Frames.antt =====
-- pkg/serializer/frame_reader.go and frame_utils.go: `ReadFrame` and `ReadFrameList`. The reader below,
-- of the Kubernetes libraries, is the parameter `Source`: what one call of its `Read` with a buffer
-- of a given size does. The loop of `ReadFrame` ends only if that reader ends, so it has fuel.
pub mod Laws
pub mod Choice
pub mod Writer
use libgitops.Prelude.{
  ℕ, zero, suc, ◌*◌, nat_beq, Bool, true, false, not, ◌||◌, Option, none, some, List, [], ◌∷◌, ◌++◌,
  length, any, ltb, if◌then◌else◌,
}
use libgitops.Prelude.Text.{trim_space, is_empty, Str}
use libgitops.Prelude.Outcome.{Error, eof, short_buffer, frame_overflow}

-- One call of `Read`: the bytes that it has put into the buffer, and its error.
pub record Source (R : Type 0) : Type 0 where
  pub read : ℕ → R → R × Str × Option Error
  pub close : R → R

-- `frameReader`
pub record FrameReader (R : Type 0) : Type 0 where
  pub rc : R
  pub buf_size : ℕ
  pub max_frame_size : ℕ

-- `newFrameReader`: 64 kB and 16 MB.
unfoldable pub new_frame_reader : {R : Type 0} → R → FrameReader R
new_frame_reader rc = record { rc = rc; buf_size = 64 * 1024; max_frame_size = 16 * 1024 * 1024 }

-- `len(bytes.TrimSpace(frame)) > 0`
unfoldable pub has_content : Str → Bool
unfolding trim_space
has_content frame = not (is_empty (trim_space frame))

-- What the switch on the error of `Read` says: read on with this factor and this frame, or return.
pub data Turn : Type 0 where
  read_on : ℕ → Str → Turn
  close_and_return return_frame : Option Error → Turn

-- The switch, after the test of the size.
unfoldable pub turn : ℕ → Str → Option Error → Turn
turn c frame none = if has_content frame then return_frame none else read_on c []
turn c frame (some short_buffer) = read_on (c * 2) frame
turn c frame (some eof) = close_and_return (some eof)
turn c frame (some e) = return_frame (some e)

module _ {R : Type 0} (source : Source R) where
  -- One round of the loop: the reader, the frame so far, and what follows.
  unfoldable pub read_round : ℕ → Str → FrameReader R → FrameReader R × Str × Turn
  read_round c frame rf =
      let (rc, read, e) = source.read (c * rf.buf_size) rf.rc in
      let longer = frame ++ read in
      (
        record rf { rc = rc },
        longer,
        if ltb rf.max_frame_size (length longer)
            then return_frame (some frame_overflow)
            else turn c longer e,
      )

  -- The loop of `ReadFrame`.
  unfoldable pub read_loop :
      ℕ → ℕ → Str → FrameReader R → Option (FrameReader R × Str × Option Error)
  read_loop zero c frame rf = none
  read_loop (suc fuel) c frame rf =
      let (rf1, longer, next) = read_round c frame rf in
      elim next [
        | read_on c1 kept ↦ read_loop fuel c1 kept rf1
        | return_frame e ↦ some (rf1, longer, e)
        | close_and_return e ↦ some (record rf1 { rc = source.close rf1.rc }, longer, e)
      ]

  -- `ReadFrame`
  unfoldable pub read_frame : ℕ → FrameReader R → Option (FrameReader R × Str × Option Error)
  read_frame fuel rf = read_loop fuel 1 [] rf

  -- `ReadFrameList`, with fuel for its own loop and for each call of `ReadFrame`. The list so far
  -- is dropped if an error comes up.
  unfoldable pub read_frames :
      ℕ → ℕ → List Str → FrameReader R → Option (FrameReader R × List Str × Option Error)
  read_frames zero each frames rf = none
  read_frames (suc fuel) each frames rf = elim (read_frame each rf) [
    | none ↦ none
    | some (rf1, frame, e) ↦ elim e [
      | none ↦ read_frames fuel each (frames ++ (frame ∷ [])) rf1
      | some x ↦ elim x [ eof ↦ some (rf1, frames, none) | other ↦ some (rf1, [], some other) ]
    ]
  ]

  unfoldable pub read_frame_list :
      ℕ → ℕ → FrameReader R → Option (FrameReader R × List Str × Option Error)
  read_frame_list fuel each rf = read_frames fuel each [] rf

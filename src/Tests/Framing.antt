-- ===== src/Tests/Framing.antt =====
-- The frame reader over a list of the results of its reader, and the frame writer.
use libgitops.Frames.{has_content}
use libgitops.Frames.{turn}
use libgitops.Frames.{read_round}
use libgitops.Frames.{read_loop}
use libgitops.Frames.{read_frames}
use libgitops.Prelude.{ℕ, ◌≡◌, refl, arith, Option, none, some, List, [], ◌∷◌, length, inl, inr}
use libgitops.Prelude.Text.{Str, bytes, join}
use libgitops.Prelude.Outcome.{Error, eof, short_buffer}
use libgitops.Frames.{Source, FrameReader, read_frame, read_frame_list}
use libgitops.Frames.Laws.{Progresses, Allowed, read_frame_total}
use libgitops.Frames.Writer.{
  yaml_separator, YamlWriter, new_yaml_writer, to_bytes, write_frame_list,
}
use libgitops.Frames.Writer.Bounds.{IsBounded, write_frame_list-IsBounded}
use libgitops.Frames.Writer.Laws.{written, write_frame_list-join}

abbrev Script : Type 0
Script = List (Str × Option Error)

read_script : ℕ → Script → Script × Str × Option Error
read_script size [] = ([], [], some eof)
read_script size ((text, e) ∷ script) = (script, text, e)

abbrev scripted : Source Script
scripted = record { read = read_script; close = λ script. [] }

abbrev remaining : Script → ℕ
remaining script = length script

scripted-Progresses : Progresses scripted remaining
unfolding Progresses read_script
scripted-Progresses size [] (inl h) = absurd (ground (arith, h))
scripted-Progresses size [] (inr h) = absurd (ground (arith, h))
scripted-Progresses size ((text, e) ∷ script) h = omega arith

-- A blank frame, then one in two parts.
abbrev two_parts : Script
two_parts = (bytes " ", none) ∷ (bytes "a: ", some short_buffer) ∷ (bytes "b", none) ∷ []

abbrev reader : FrameReader Script
reader = record { rc = two_parts; buf_size = 4; max_frame_size = 8 }

two_parts_read :
    read_frame_list scripted 3 4 reader ≡ some (record reader { rc = [] }, bytes "a: b" ∷ [], none)
unfolding read_frame_list read_frames read_frame read_loop read_round read_script turn has_content
two_parts_read = refl

read_frame_total_example :
    (out : FrameReader Script × Str × Option Error) × (read_frame scripted 4 reader ≡ some out)
    × Allowed 8 out
read_frame_total_example = read_frame_total scripted remaining reader scripted-Progresses

abbrev documents : List Str
documents = bytes "a" ∷ bytes "b" ∷ []

write_frame_list-join_example :
    (y : YamlWriter) × (write_frame_list documents (new_yaml_writer (to_bytes (bytes "12345678")))
      ≡ (y, none))
    × (written y.w ≡ join yaml_separator documents)
unfolding join
write_frame_list-join_example = write_frame_list-join documents (bytes "12345678") (ground arith)

-- The second document does not fit in.
write_frame_list-IsBounded_example :
    IsBounded
      (to_bytes (bytes "1234"))
      (write_frame_list documents (new_yaml_writer (to_bytes (bytes "1234")))).0.w
unfolding new_yaml_writer to_bytes
write_frame_list-IsBounded_example =
    write_frame_list-IsBounded documents (new_yaml_writer (to_bytes (bytes "1234"))) (omega arith)

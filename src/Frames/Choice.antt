-- ===== src/Frames/Choice.antt =====
-- pkg/serializer/frame_reader.go, frame_writer.go and error_structs.go: the reader and the writer of a
-- content type. The framers of the Kubernetes libraries are a parameter.
use libgitops.Prelude.{ℕ, ◌≡◌, false, Option, none, some, [], arith, if◌then◌else◌}
use libgitops.Prelude.Text.{Str, str_eq}
use libgitops.Prelude.Outcome.{Error, unsupported_content_type}
use libgitops.Raw.Content.{json, yaml}
use libgitops.Frames.{Source, FrameReader, new_frame_reader, read_frame}
use libgitops.Frames.Writer.{ByteWriter, byte_write, YamlWriter, new_yaml_writer, yaml_write}

-- `json.YAMLFramer` and `json.Framer`, from streams `C` to the states of their readers.
pub record Framers (C R : Type 0) : Type 0 where
  pub yaml_framer : C → R
  pub json_framer : C → R

-- A `FrameReader`: `frameReader`, or `errFrameReader`, with its content type.
pub data AnyFrameReader (R : Type 0) : Type 0 where
  frame_reader : FrameReader R → Str → AnyFrameReader R
  err_frame_reader : Error → Str → AnyFrameReader R

module _ {C R : Type 0} (framers : Framers C R) where
  -- `NewFrameReader`
  unfoldable pub frame_reader_of : Str → C → AnyFrameReader R
  frame_reader_of content_type rc =
      if str_eq content_type yaml
      then frame_reader (new_frame_reader (framers.yaml_framer rc)) content_type
      else if str_eq content_type json
      then frame_reader (new_frame_reader (framers.json_framer rc)) content_type
      else err_frame_reader unsupported_content_type content_type

  unfoldable pub new_yaml_frame_reader : C → AnyFrameReader R
  new_yaml_frame_reader rc = frame_reader_of yaml rc

  unfoldable pub new_json_frame_reader : C → AnyFrameReader R
  new_json_frame_reader rc = frame_reader_of json rc

-- `ContentType`
unfoldable pub content_type_of : {R : Type 0} → AnyFrameReader R → Str
content_type_of (frame_reader rf content_type) = content_type
content_type_of (err_frame_reader e content_type) = content_type

module _ {R : Type 0} (source : Source R) where
  -- `ReadFrame` and `Close`
  unfoldable pub read_any : ℕ → AnyFrameReader R → Option (AnyFrameReader R × Str × Option Error)
  read_any fuel (frame_reader rf content_type) = elim (read_frame source fuel rf) [
    | none ↦ none
    | some (rf1, frame, e) ↦ some (frame_reader rf1 content_type, frame, e)
  ]
  read_any fuel (err_frame_reader e content_type) =
      some (err_frame_reader e content_type, [], some e)

  unfoldable pub close_any : AnyFrameReader R → AnyFrameReader R
  close_any (frame_reader rf content_type) =
      frame_reader (record rf { rc = source.close rf.rc }) content_type
  close_any (err_frame_reader e content_type) = err_frame_reader e content_type

-- A `FrameWriter` over a byte array: of YAML, of JSON, or `errFrameWriter`.
pub data AnyFrameWriter : Type 0 where
  yaml_frame_writer : YamlWriter → AnyFrameWriter
  json_frame_writer : ByteWriter → AnyFrameWriter
  err_frame_writer : Error → AnyFrameWriter

-- `NewFrameWriter`
unfoldable pub new_frame_writer : Str → ByteWriter → AnyFrameWriter
new_frame_writer content_type w =
    if str_eq content_type yaml
    then yaml_frame_writer (new_yaml_writer w)
    else if str_eq content_type json
    then json_frame_writer w
    else err_frame_writer unsupported_content_type

-- `Write`
unfoldable pub write_any : Str → AnyFrameWriter → AnyFrameWriter × ℕ × Option Error
write_any p (yaml_frame_writer y) = let r = yaml_write p y in (yaml_frame_writer r.0, r.1, r.2)
write_any p (json_frame_writer w) = let r = byte_write p w in (json_frame_writer r.0, r.1, r.2)
write_any p (err_frame_writer e) = (err_frame_writer e, 0, some e)

-- Of another content type, every call of `ReadFrame` and of `Write` has the same error, and changes
-- nothing.
pub any-unsupported :
    {C R : Type 0} (framers : Framers C R) (source : Source R) (content_type : Str) (rc : C)
    (w : ByteWriter) (fuel : ℕ) (p : Str)
    → str_eq content_type yaml ≡ false
    → str_eq content_type json ≡ false
    → (read_any source fuel (frame_reader_of framers content_type rc)
        ≡ some (frame_reader_of framers content_type rc, [], some unsupported_content_type))
      × (write_any p (new_frame_writer content_type w)
          ≡ (new_frame_writer content_type w, 0, some unsupported_content_type))
unfolding read_any frame_reader_of write_any new_frame_writer
any-unsupported framers source content_type rc w fuel p y j =
    (ground (arith, y, j), ground (arith, y, j))

-- ===== src/Frames/Writer.antt =====
-- pkg/serializer/frame_writer.go and frame_utils.go: writing frames to a byte array.
pub mod Laws
pub mod Bounds
use libgitops.Prelude.{
  ℕ, ◌+◌, Bool, true, false, Option, none, some, List, [], ◌∷◌, ◌++◌, length, take, drop, ltb,
  if◌then◌else◌,
}
use libgitops.Prelude.Text.{Str, bytes}
use libgitops.Prelude.Outcome.{Error, short_buffer}

abbrev pub yaml_separator : Str
yaml_separator = bytes "---" ++ (b'\n' ∷ [])

-- `byteWriter`
pub record ByteWriter : Type 0 where
  pub to : Str
  pub index : ℕ

-- `ToBytes`
unfoldable pub to_bytes : Str → ByteWriter
to_bytes p = record { to = p; index = 0 }

-- The loop of `Write`, which copies the bytes to their places one by one.
abbrev pub copied : Str → ByteWriter → Str
copied from w = take w.index w.to ++ (from ++ drop (w.index + length from) w.to)

-- `Write` of `byteWriter`, with the number of bytes that are written.
unfoldable pub byte_write : Str → ByteWriter → ByteWriter × ℕ × Option Error
byte_write from w =
    if ltb (length w.to) (w.index + length from)
    then (w, 0, some short_buffer)
    else (record { to = copied from w; index = w.index + length from }, length from, none)

-- `yamlWriter`, over a `byteWriter`.
pub record YamlWriter : Type 0 where
  pub w : ByteWriter
  pub has_written : Bool

unfoldable pub new_yaml_writer : ByteWriter → YamlWriter
new_yaml_writer w = record { w = w; has_written = false }

-- The end of `Write`, after the separator.
unfoldable pub write_document : Str → YamlWriter → YamlWriter × ℕ × Option Error
write_document p y =
    let (w1, n, e) = byte_write p y.w in
    (record { w = w1; has_written = elim e [ none ↦ true | some x ↦ y.has_written ] }, n, e)

-- `Write` of `yamlWriter`
unfoldable pub yaml_write : Str → YamlWriter → YamlWriter × ℕ × Option Error
yaml_write p y =
    let (w1, n, e) = byte_write yaml_separator y.w in
    if y.has_written
    then elim e [
      | some x ↦ (record y { w = w1 }, 0, some x)
      | none ↦ write_document p (record y { w = w1 })
    ]
    else write_document p y

-- `WriteFrameList`
unfoldable pub write_frame_list : List Str → YamlWriter → YamlWriter × Option Error
write_frame_list [] y = (y, none)
write_frame_list (frame ∷ frames) y =
    let (y1, n, e) = yaml_write frame y in
    elim e [ some x ↦ (y1, some x) | none ↦ write_frame_list frames y1 ]

-- ===== src/Storage/Partial.antt =====
-- `DecodePartialObjects` of pkg/storage/storage.go.
use mathlib.Core.Path.{fun_ext}
use libgitops.Prelude.{
  ap, Bool, not, ◌&&◌, nat_beq, ◌≡◌, refl, Option, none, some, List, [], ◌∷◌, length, if◌then◌else◌,
  arith,
}
use libgitops.Prelude.Text.{Str}
use libgitops.Prelude.Outcome.{Outcome, ok, err, panic, ◌>>=◌, unexpected_frame_count, unknown_gvk}
use libgitops.Key.{Gvk}
use libgitops.Runtime.{Object}
use libgitops.Serializer.{Serializer}

-- One frame. The kind that is set at the end is the object's own.
decode_frame : Serializer → Option Gvk → Str → Outcome Object
decode_frame ser default_gvk frame = do
  partobj ← ser.new_partial_object frame
  let gvk = partobj.type_meta
  if not (ser.recognizes gvk) then err unknown_gvk else elim default_gvk [
    | none ↦ ok partobj
    | some wanted ↦ ok (record partobj { type_meta = gvk })
  ]

decode_frames : Serializer → Option Gvk → List Str → Outcome (List Object)
decode_frames ser default_gvk [] = ok []
decode_frames ser default_gvk (frame ∷ frames) =
    let rest = decode_frames ser default_gvk frames in
    do partobj ← decode_frame ser default_gvk frame; objs ← rest; ok (partobj ∷ objs)

unfoldable pub decode_partial_objects : Serializer → Str → Bool → Option Gvk → Outcome (List Object)
unfolding decode_frame decode_frames
decode_partial_objects ser content allow_multiple default_gvk = do
  frames ← ser.read_frame_list content
  if not allow_multiple && not (nat_beq (length frames) 1)
      then err unexpected_frame_count
      else decode_frames ser default_gvk frames

-- `partobjs[0]`
unfoldable pub first_object : List Object → Outcome Object
first_object [] = panic
first_object (o ∷ objs) = ok o

decode_frames-default :
    (ser : Serializer) (wanted : Gvk) (frames : List Str)
    → decode_frames ser (some wanted) frames ≡ decode_frames ser none frames
unfolding decode_frames decode_frame
decode_frames-default ser wanted [] = refl
decode_frames-default ser wanted (frame ∷ frames) =
    ground (arith, decode_frames-default ser wanted frames)

-- The default kind that a caller of DecodePartialObjects gives has no effect on the result.
pub decode_partial_objects-default :
    (ser : Serializer) (content : Str) (allow_multiple : Bool) (wanted : Gvk)
    → decode_partial_objects ser content allow_multiple (some wanted)
      ≡ decode_partial_objects ser content allow_multiple none
unfolding decode_partial_objects
decode_partial_objects-default ser content allow_multiple wanted =
    ap
      (λ (decode : List Str → Outcome (List Object)). ser.read_frame_list content >>= λ frames.
        if not allow_multiple && not (nat_beq (length frames) 1)
        then err unexpected_frame_count
        else decode frames)
      (fun_ext (decode_frames-default ser wanted))

-- ===== src/Serializer.antt =====
-- What pkg/storage uses of `serializer.Serializer` and of the third-party libraries behind it.
use libgitops.Prelude.{Bool, List}
use libgitops.Prelude.Text.{Str}
use libgitops.Prelude.Outcome.{Outcome}
use libgitops.Key.{Gvk}
use libgitops.Runtime.{Object}

-- What the decoder returns: a `runtime.Object` of libgitops, or another object of Kubernetes' own
-- interface of that name, with its identity.
pub data Decoded : Type 0 where
  with_meta : Object → Decoded
  without_meta : Str → Decoded

pub record Serializer : Type 0 where
  -- `Encoder().Encode` to a frame writer of the content type, into a fresh buffer.
  pub encode : Str → Decoded → Outcome Str
  -- `Decoder(WithConvertToHubDecode(..)).Decode` of the first frame of the content.
  pub decode : Bool → Str → Str → Outcome Decoded
  -- `GVKForObject`
  pub gvk_for_object : Object → Outcome Gvk
  -- `Scheme().Recognizes`, `Scheme().New`
  pub recognizes : Gvk → Bool
  pub new_object : Gvk → Outcome Object
  -- `ReadFrameList` of a YAML frame reader of the content.
  pub read_frame_list : Str → Outcome (List Str)
  -- `runtime.NewPartialObject`, which calls `yaml.Unmarshal`.
  pub new_partial_object : Str → Outcome Object
  -- `strategicpatch.StrategicMergePatch`
  pub strategic_merge_patch : Str → Str → Object → Outcome Str

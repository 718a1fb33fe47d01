-- ===== src/Patch.antt =====
-- pkg/util/patch/patch.go: making a patch of a change, and applying one to a file. `Apply` itself is
-- `patcher_apply` of Storage.
pub mod Laws
use libgitops.Prelude.Text.{Str}
use libgitops.Prelude.Outcome.{Outcome, Done, ok, err, panic, ◌>>=◌}
use libgitops.Key.{Gvk}
use libgitops.Runtime.{Object}
use libgitops.Raw.Content.{json}
use libgitops.Fs.{Fs, read_file, write_file}
use libgitops.Serializer.{Serializer, with_meta}
use libgitops.Storage.{patcher_apply}

-- `patcher`, with `strategicpatch.CreateTwoWayMergePatch` of Kubernetes.
pub record Patcher : Type 0 where
  pub serializer : Serializer
  pub create_two_way_merge_patch : Str → Str → Object → Outcome Str

-- `Create`, which also returns the object that `apply_fn` changes.
unfoldable pub patcher_create :
    Patcher → Object → (Object → Outcome Object) → Outcome (Object × Str)
patcher_create p old apply_fn = do
  old_bytes ← p.serializer.encode json (with_meta old)
  new ← apply_fn old
  new_bytes ← p.serializer.encode json (with_meta new)
  empty ← p.serializer.new_object old.type_meta
  patch ← p.create_two_way_merge_patch old_bytes new_bytes empty
  ok (new, patch)

-- `ApplyOnFile`
unfoldable pub apply_on_file : Patcher → Fs → Str → Str → Gvk → Fs × Done
apply_on_file p fs path patch gvk =
    elim (do old ← read_file fs path; patcher_apply p.serializer old patch gvk) [
      | ok new ↦ write_file fs path new
      | err e ↦ (fs, err e)
      | panic ↦ (fs, panic)
    ]

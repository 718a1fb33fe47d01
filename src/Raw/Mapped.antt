-- ===== src/Raw/Mapped.antt =====
-- pkg/storage/mappedrawstorage.go: objects in files anywhere, found through a table from keys to
-- paths. The lock that guards the table is held for one access at a time, so each access is a step.
pub mod Laws
pub mod Removal
use libgitops.Prelude.{ℕ, Bool, true, false, ◌≡◌, Option, none, some, List, [], ◌∷◌, if◌then◌else◌}
use libgitops.Prelude.Text.{Str, str_eq}
use libgitops.Prelude.Dict.{Dict, lookup, insert, erase}
use libgitops.Prelude.Outcome.{
  Outcome, Done, ok, err, panic, ◌>>=◌, ◌>>◌, not_tracked, no_mapping_found,
}
use libgitops.FilePath
use libgitops.Key.{Gvk, ObjectKey, equals_gvk, key_eq}
use libgitops.Fs.{Fs, file_exists, read_file, write_file, remove}
use libgitops.Raw.{RawStorage}
use libgitops.Raw.Content.{checksum_from_mod_time, content_type_of}

-- `GenericMappedRawStorage`, beside the file system that it works on.
pub record MappedRawStorage : Type 0 where
  pub dir : Str
  pub file_mappings : Dict (Option ObjectKey) Str
  pub fs : Fs

abbrev pub with_fs : MappedRawStorage → Fs × Done → MappedRawStorage × Done
with_fs r (fs, result) = (record r { fs = fs }, result)

-- `NewGenericMappedRawStorage`
unfoldable pub new_generic_mapped_raw_storage : Str → Fs → MappedRawStorage
new_generic_mapped_raw_storage dir fs = record { dir = dir; file_mappings = []; fs = fs }

unfoldable pub real_path : MappedRawStorage → ObjectKey → Outcome Str
real_path r key = elim (lookup (some key) r.file_mappings) [
  | none ↦ err not_tracked
  | some p ↦ ok p
]

unfoldable pub read : MappedRawStorage → ObjectKey → Outcome Str
unfolding real_path
read r key = do file ← real_path r key; read_file r.fs file

unfoldable pub exists : MappedRawStorage → ObjectKey → Outcome Bool
unfolding real_path
exists r key = elim (real_path r key) [
  | ok file ↦ file_exists r.fs file
  | err e ↦ ok false
  | panic ↦ panic
]

unfoldable pub write : MappedRawStorage → ObjectKey → Str → MappedRawStorage × Done
unfolding real_path
write r key content = elim (real_path r key) [
  | ok file ↦ with_fs r (write_file r.fs file content)
  | err e ↦ (r, err e)
  | panic ↦ (r, panic)
]

unfoldable pub add_mapping : Option ObjectKey → Str → MappedRawStorage → MappedRawStorage
add_mapping key p r = record r { file_mappings = insert key p r.file_mappings }

unfoldable pub remove_mapping : Option ObjectKey → MappedRawStorage → MappedRawStorage
remove_mapping key r = record r { file_mappings = erase key r.file_mappings }

unfoldable pub set_mappings : Dict (Option ObjectKey) Str → MappedRawStorage → MappedRawStorage
set_mappings m r = record r { file_mappings = m }

-- The file is removed if it is there.
remove_if : Fs → Str → Bool → Fs × Done
remove_if fs p true = remove fs p
remove_if fs p false = (fs, ok tt)

-- The mapping goes if no error came up.
forget : ObjectKey → MappedRawStorage × Done → MappedRawStorage × Done
forget key (r, ok u) = (remove_mapping (some key) r, ok tt)
forget key (r, err e) = (r, err e)
forget key (r, panic) = (r, panic)

unfoldable pub delete : MappedRawStorage → ObjectKey → MappedRawStorage × Done
unfolding real_path remove_if forget remove_mapping
delete r key = elim (real_path r key) [
  | err e ↦ (r, err e)
  | panic ↦ (r, panic)
  | ok file ↦ elim (file_exists r.fs file) [
    | ok found ↦ forget key (with_fs r (remove_if r.fs file found))
    | err e ↦ (r, err e)
    | panic ↦ (r, panic)
  ]
]

-- The loop of `List`. A nil key panics in `key.EqualsGVK`.
unfoldable pub list_keys : Gvk → Dict (Option ObjectKey) Str → Outcome (List ObjectKey)
list_keys kind [] = ok []
list_keys kind ((none, p) ∷ mappings) = panic
list_keys kind ((some key, p) ∷ mappings) =
    let rest = list_keys kind mappings in
    if equals_gvk key.kind_key kind false then (do keys ← rest; ok (key ∷ keys)) else rest

unfoldable pub list : MappedRawStorage → Gvk → Outcome (List ObjectKey)
unfolding list_keys
list r kind = list_keys kind r.file_mappings

unfoldable pub checksum : MappedRawStorage → ObjectKey → Outcome ℕ
unfolding real_path
checksum r key = do file ← real_path r key; checksum_from_mod_time r.fs file

unfoldable pub content_type : MappedRawStorage → ObjectKey → Str
unfolding real_path
content_type r key = elim (real_path r key) [
  | ok file ↦ content_type_of (FilePath.ext file)
  | err e ↦ []
  | panic ↦ []
]

unfoldable pub key_of_path : Str → Dict (Option ObjectKey) Str → Outcome (Option ObjectKey)
key_of_path path [] = err no_mapping_found
key_of_path path ((key, p) ∷ mappings) = if str_eq p path then ok key else key_of_path path mappings

unfoldable pub get_key : MappedRawStorage → Str → Outcome (Option ObjectKey)
unfolding key_of_path
get_key r path = key_of_path path r.file_mappings

unfoldable pub mapped_raw : RawStorage MappedRawStorage
mapped_raw = record {
  read = read;
  exists = exists;
  write = write;
  delete = delete;
  list = list;
  checksum = checksum;
  content_type = content_type;
  watch_dir = λ r. r.dir;
  get_key = get_key;
}

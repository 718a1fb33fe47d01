-- ===== src/Raw/Generic.antt =====
-- `GenericRawStorage` of pkg/storage/rawstorage.go: one file for each object, under a path that is
-- computed from its key.
pub mod Paths
pub mod Guard
use libgitops.Prelude.{
  ℕ, suc, ◌+◌, Bool, true, false, not, ◌&&◌, ◌≡◌, Option, none, some, List, [], ◌∷◌, ◌++◌, map, ltb,
  length, if◌then◌else◌,
}
use libgitops.Prelude.Text.{Str, bytes, str_eq, split}
use libgitops.Prelude.Outcome.{
  Outcome, Done, ok, err, panic, ◌>>=◌, ◌>>◌, not_found, unsupported_group_version,
  path_not_long_enough, path_wrong_base,
}
use libgitops.FilePath
use libgitops.FilePath.{slash}
use libgitops.Key.{Gvk, ObjectKey}
use libgitops.Fs.{Fs, file_exists, read_file, write_file, remove_all, mkdir_all, read_dir}
use libgitops.Raw.{RawStorage}
use libgitops.Raw.Content.{checksum_from_mod_time, ext_for_content_type}

pub record GenericRawStorage : Type 0 where
  pub dir : Str
  pub group : Str
  pub version : Str
  pub content : Str
  pub ext : Str

module _ (r : GenericRawStorage) where
  unfoldable pub key_path : ObjectKey → Str
  key_path key =
      FilePath.join_path
        (r.dir ∷ key.kind_key.kind ∷ key.identifier ∷ (bytes "metadata" ++ r.ext) ∷ [])

  unfoldable pub kind_key_path : Gvk → Str
  kind_key_path kind = FilePath.join_path (r.dir ∷ kind.kind ∷ [])

  unfoldable pub validate_group_version : Gvk → Done
  validate_group_version kind =
      if str_eq r.group kind.group && str_eq r.version kind.version
      then ok tt
      else err unsupported_group_version

  unfoldable pub exists : Fs → ObjectKey → Outcome Bool
  unfolding validate_group_version
  exists fs key = elim (validate_group_version key.kind_key) [
    | ok u ↦ file_exists fs (key_path key)
    | err e ↦ ok false
    | panic ↦ panic
  ]

  unfoldable pub read : Fs → ObjectKey → Outcome Str
  unfolding exists
  read fs key = do
    validate_group_version key.kind_key
    found ← exists fs key
    if not found then err not_found else read_file fs (key_path key)

  -- The directories are made first if the file does not exist.
  make_parent : Fs → ObjectKey → Bool → Fs × Done
  make_parent fs key true = (fs, ok tt)
  make_parent fs key false = mkdir_all fs (FilePath.dir (key_path key))

  write_content : ObjectKey → Str → Fs × Done → Fs × Done
  write_content key content (fs, ok u) = write_file fs (key_path key) content
  write_content key content (fs, err e) = (fs, err e)
  write_content key content (fs, panic) = (fs, panic)

  unfoldable pub write : Fs → ObjectKey → Str → Fs × Done
  unfolding exists make_parent write_content
  write fs key content = elim (validate_group_version key.kind_key >> exists fs key) [
    | ok found ↦ write_content key content (make_parent fs key found)
    | err e ↦ (fs, err e)
    | panic ↦ (fs, panic)
  ]

  unfoldable pub delete : Fs → ObjectKey → Fs × Done
  unfolding exists
  delete fs key = elim (validate_group_version key.kind_key >> exists fs key) [
    | ok found ↦
        if not found then (fs, err not_found) else remove_all fs (FilePath.dir (key_path key))
    | err e ↦ (fs, err e)
    | panic ↦ (fs, panic)
  ]

  unfoldable pub list : Fs → Gvk → Outcome (List ObjectKey)
  unfolding validate_group_version
  list fs kind = do
    validate_group_version kind
    entries ← read_dir fs (kind_key_path kind)
    ok (map (λ name. record { kind_key = kind; identifier = name }) entries)

  unfoldable pub checksum : Fs → ObjectKey → Outcome ℕ
  unfolding exists
  checksum fs key = do
    validate_group_version key.kind_key
    found ← exists fs key
    if not found then err not_found else checksum_from_mod_time fs (key_path key)

-- The test of the loop in `GetKey`: the elements of the path begin with those of the directory.
unfoldable pub same_base : List Str → List Str → Bool
same_base [] path = true
same_base (d ∷ dir) [] = false
same_base (d ∷ dir) (x ∷ path) = str_eq d x && same_base dir path

-- The two elements behind the directory, and what follows them.
key_below : Str → Str → List Str → List Str → Outcome (Option ObjectKey)
key_below group version [] (kind ∷ uid ∷ rest) = ok (
    some (record {
      kind_key = record { group = group; version = version; kind = kind };
      identifier = uid;
    }))
key_below group version (d ∷ dir) (x ∷ path) = key_below group version dir path
key_below group version dir path = panic

unfoldable pub get_key : GenericRawStorage → Str → Outcome (Option ObjectKey)
unfolding same_base key_below
get_key r p =
    let split_dir = split slash (FilePath.clean r.dir) in
    let split_path = split slash (FilePath.clean p) in
    if ltb (length split_path) (length split_dir + 2)
    then err path_not_long_enough
    else if not (same_base split_dir split_path)
    then err path_wrong_base
    else key_below r.group r.version split_dir split_path

-- `NewGenericRawStorage`, for an order in which the map of the content types is visited.
unfoldable pub new_generic_raw_storage : Bool → Str → Str → Str → Str → Outcome GenericRawStorage
unfolding ext_for_content_type
new_generic_raw_storage backwards dir group version ct =
    let ext = ext_for_content_type backwards ct in
    if str_eq ext []
    then panic
    else ok (record { dir = dir; group = group; version = version; content = ct; ext = ext })

unfoldable pub generic_raw : GenericRawStorage → RawStorage Fs
generic_raw r = record {
  read = read r;
  exists = exists r;
  write = write r;
  delete = delete r;
  list = list r;
  checksum = checksum r;
  content_type = λ fs key. r.content;
  watch_dir = λ fs. r.dir;
  get_key = λ fs p. get_key r p;
}

-- ===== src/Tests/Raw.antt =====
-- Paths, keys and the two raw storages at concrete inputs.
use libgitops.Prelude.{
  true, false, ◌≡◌, ◌≢◌, refl, arith, Option, none, some, List, [], ◌∷◌, map, keep_if,
}
use libgitops.Prelude.Text.{Str, bytes, split, join}
use libgitops.Prelude.Dict.{keys, lookup, insert, erase, NodupKeys}
use libgitops.Prelude.Outcome.{
  ok, err, panic, not_tracked, unsupported_group_version, no_mapping_found,
}
use libgitops.FilePath
use libgitops.FilePath.{slash, render}
use libgitops.FilePath.Laws.{IsPlain}
use libgitops.Key.{ObjectKey, key_eq, nilable_beq, key_beq}
use libgitops.Fs.{Fs, fails, write_file, mkdir_all, remove, file_exists}
use libgitops.Raw.Generic
use libgitops.Raw.Generic.{GenericRawStorage, key_path, new_generic_raw_storage}
use libgitops.Raw.Generic.Paths.{get_key-key_path_first}
use libgitops.Raw.Generic.Guard.{Supports, unsupported, generic_read-write}
use libgitops.Raw.Mapped
use libgitops.Raw.Mapped.{MappedRawStorage}
use libgitops.Raw.Mapped.Laws.{untracked, read-write, write-unchanged}
use libgitops.Raw.Mapped.Removal.{
  delete-gone, delete-unchanged, NoNil, of_kind, list_of_mappings, get_key_lem,
}
use libgitops.Tests.Samples.{car_kind, car_key, bike_key, disk, manifests, jsons}

repo-IsPlain : IsPlain (bytes "repo")
repo-IsPlain = record { filled = refl; not_dot = refl; not_dot_dot = refl; free = ground arith }

car-IsPlain : IsPlain (bytes "Car")
car-IsPlain = record { filled = refl; not_dot = refl; not_dot_dot = refl; free = ground arith }

foo-IsPlain : IsPlain (bytes "foo")
foo-IsPlain = record { filled = refl; not_dot = refl; not_dot_dot = refl; free = ground arith }

abbrev repo_jsons : GenericRawStorage
repo_jsons = record jsons { dir = bytes "/repo" }

repo_jsons_made :
    new_generic_raw_storage false
      (render true (bytes "repo" ∷ []))
      (bytes "sample")
      (bytes "v1")
      (bytes "application/json")
    ≡ ok repo_jsons
unfolding new_generic_raw_storage render join
repo_jsons_made = refl

-- The key of an object that is identified by its namespace and name comes back without the name.
get_key-key_path_first_example :
    Generic.get_key repo_jsons (
      key_path repo_jsons
        (record car_key { identifier = join (slash ∷ []) (bytes "foo" ∷ bytes "repo" ∷ []) }))
    ≡ ok (some (record car_key { identifier = bytes "foo" }))
get_key-key_path_first_example =
    get_key-key_path_first false true (bytes "repo") [] (bytes "sample") (bytes "v1")
      (bytes "application/json") repo_jsons (bytes "Car") (bytes "foo") (bytes "repo" ∷ [])
      repo_jsons_made (repo-IsPlain, tt) (car-IsPlain, (foo-IsPlain, (repo-IsPlain, tt)))

abbrev alien : ObjectKey
alien = record car_key { kind_key = record car_kind { group = bytes "apps" } }

unsupported_example :
    (Generic.read jsons disk alien ≡ err unsupported_group_version)
    × (Generic.exists jsons disk alien ≡ ok false)
    × (Generic.write jsons disk alien [] ≡ (disk, err unsupported_group_version))
    × (Generic.delete jsons disk alien ≡ (disk, err unsupported_group_version))
    × (Generic.list jsons disk alien.kind_key ≡ err unsupported_group_version)
    × (Generic.checksum jsons disk alien ≡ err unsupported_group_version)
unsupported_example = unsupported jsons disk alien [] (λ h. cc (h.0))

json_written :
    Generic.write jsons disk car_key (bytes "new")
    ≡ ((Generic.write jsons disk car_key (bytes "new")).0, ok tt)
unfolding Generic.write key_path FilePath.join_path FilePath.dir file_exists lookup insert fails
    join split mkdir_all write_file
json_written = refl

abbrev after_json : Fs
after_json = (Generic.write jsons disk car_key (bytes "new")).0

generic_read-write_example :
    Supports jsons car_kind
    × (Generic.read jsons after_json car_key ≡ ok (bytes "new"))
    × (Generic.exists jsons after_json car_key ≡ ok true)
generic_read-write_example =
    generic_read-write jsons disk after_json car_key (bytes "new") json_written

abbrev after_write : MappedRawStorage
after_write = (Mapped.write manifests car_key (bytes "new")).0

manifest_written : Mapped.write manifests car_key (bytes "new") ≡ (after_write, ok tt)
unfolding Mapped.write write_file lookup insert fails nilable_beq key_beq
manifest_written = refl

untracked_example :
    (Mapped.write manifests alien [] ≡ (manifests, err not_tracked))
    × (Mapped.read manifests alien ≡ err not_tracked)
    × (Mapped.exists manifests alien ≡ ok false)
    × (Mapped.delete manifests alien ≡ (manifests, err not_tracked))
unfolding lookup nilable_beq key_beq
untracked_example = untracked manifests alien [] refl

read-write_example :
    (Mapped.read after_write car_key ≡ ok (bytes "new"))
    × (Mapped.exists after_write car_key ≡ ok true)
    × (after_write.file_mappings ≡ manifests.file_mappings)
    × ((k : ObjectKey)
        → Mapped.real_path manifests k ≢ Mapped.real_path manifests car_key
        → Mapped.read after_write k ≡ Mapped.read manifests k)
read-write_example = read-write manifests after_write car_key (bytes "new") manifest_written

-- A storage whose file cannot be accessed.
abbrev locked : MappedRawStorage
locked = record manifests { fs = record disk { failing = bytes "/repo/car.yaml" ∷ [] } }

locked_write_fails : (Mapped.write locked car_key (bytes "new")).1 ≢ ok tt
unfolding Mapped.write write_file lookup insert fails nilable_beq key_beq
locked_write_fails h = cc

write-unchanged_example : (Mapped.write locked car_key (bytes "new")).0 ≡ locked
write-unchanged_example = write-unchanged locked car_key (bytes "new") locked_write_fails

abbrev after_delete : MappedRawStorage
after_delete = (Mapped.delete manifests car_key).0

manifest_deleted : Mapped.delete manifests car_key ≡ (after_delete, ok tt)
unfolding Mapped.delete file_exists remove lookup erase fails nilable_beq key_beq
manifest_deleted = refl

delete-gone_example :
    (Mapped.real_path after_delete car_key ≡ err not_tracked)
    × (Mapped.exists after_delete car_key ≡ ok false)
    × ((p : Str)
        → Mapped.real_path manifests car_key ≡ ok p
        → file_exists after_delete.fs p ≡ ok false)
    × ((k : ObjectKey)
        → k ≢ car_key
        → Mapped.real_path after_delete k ≡ Mapped.real_path manifests k)
delete-gone_example = delete-gone manifests after_delete car_key manifest_deleted

locked_delete_fails : (Mapped.delete locked car_key).1 ≢ ok tt
unfolding Mapped.delete file_exists remove lookup fails nilable_beq key_beq
locked_delete_fails h = cc

delete-unchanged_example : (Mapped.delete locked car_key).0 ≡ locked
delete-unchanged_example = delete-unchanged locked car_key locked_delete_fails

list_of_mappings_example :
    (NoNil manifests.file_mappings
      → (found : List ObjectKey) × (Mapped.list manifests car_kind ≡ ok found)
        × (map some found ≡ keep_if (of_kind car_kind) (keys manifests.file_mappings)))
    × ((p : Str) → Mapped.list (Mapped.add_mapping none p manifests) car_kind ≡ panic)
list_of_mappings_example = list_of_mappings manifests car_kind

manifests-NodupKeys : NodupKeys manifests.file_mappings
unfolding lookup nilable_beq key_beq
manifests-NodupKeys = (refl, (refl, tt))

get_key_lem_example :
    ((key : Option ObjectKey)
      → Mapped.get_key manifests (bytes "/repo/bike.yaml") ≡ ok key
      → lookup key manifests.file_mappings ≡ some (bytes "/repo/bike.yaml"))
    × ((key : Option ObjectKey)
        → lookup key manifests.file_mappings ≡ some (bytes "/repo/bike.yaml")
        → Mapped.get_key manifests (bytes "/repo/bike.yaml") ≢ err no_mapping_found)
get_key_lem_example = get_key_lem manifests (bytes "/repo/bike.yaml") manifests-NodupKeys

-- The file of a key that is listed.
bike_found : Mapped.get_key manifests (bytes "/repo/bike.yaml") ≡ ok (some bike_key)
unfolding Mapped.get_key
bike_found = refl

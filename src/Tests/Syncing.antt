-- ===== src/Tests/Syncing.antt =====
-- A sync of the mappings with a directory of two manifests that hold the same object.
use libgitops.Prelude.{◌≡◌, refl, false, none, some, List, [], ◌∷◌, ◌++◌, map}
use libgitops.Prelude.Text.{bytes, split, join}
use libgitops.Prelude.Dict.{lookup, keys, insert}
use libgitops.Prelude.Outcome.{ok}
use libgitops.FilePath.{ext, clean, render, resolve}
use libgitops.Fs.{read_file, fails, stat}
use libgitops.Runtime.{metav1_name_identify}
use libgitops.Storage.{object_key_for, identify}
use libgitops.Storage.Partial.{decode_partial_objects, first_object}
use libgitops.Key.{key_eq, key_beq, nilable_beq}
use libgitops.Raw.Mapped.{
  MappedRawStorage, new_generic_mapped_raw_storage, mapped_raw, set_mappings,
}
use libgitops.Watcher.Valid.{Visit, walk_directory_for_files, is_valid_file}
use libgitops.Transaction.Mappings.{
  sync, compute_mappings, add_files, key_of_file, sync-last_file, last_file, found_files,
}
use libgitops.Transaction.Loop.{
  Checkout, Tracked, LoopEvent, commit, changed, change, sync_loop, sync_round, new_git_storage,
  Follows, sync_loop-Follows,
}
use libgitops.Tests.Samples.{car_key, disk, manifests, car_storage}

abbrev visits : List Visit
visits =
    record { path = bytes "/repo/car.yaml"; is_dir = false; error = none }
    ∷ record { path = bytes "/repo/notes.txt"; is_dir = false; error = none }
    ∷ record { path = bytes "/repo/bike.yaml"; is_dir = false; error = none }
    ∷ []

abbrev synced : MappedRawStorage
synced = record manifests { file_mappings = (some car_key, bytes "/repo/bike.yaml") ∷ [] }

syncing : sync (car_storage mapped_raw) visits manifests ≡ (synced, ok tt)
unfolding sync compute_mappings walk_directory_for_files add_files is_valid_file keys ext split
    clean join key_of_file read_file fails lookup decode_partial_objects first_object object_key_for
    metav1_name_identify render resolve stat key_beq nilable_beq insert set_mappings identify
syncing = refl

sync-last_file_example :
    lookup (some car_key) synced.file_mappings
    ≡ last_file (car_storage mapped_raw) disk car_key (found_files (car_storage mapped_raw) visits)
sync-last_file_example =
    sync-last_file (car_storage mapped_raw) visits manifests synced car_key syncing

abbrev checkout : Checkout
checkout = record { disk = disk; visited = visits }

abbrev on_disk : MappedRawStorage → Tracked
on_disk r = record { raw = r; visited = visits }

abbrev emptied : Checkout
emptied = record { disk = record disk { nodes = [] }; visited = [] }

-- The files are there when the second commit comes, and gone afterwards.
abbrev first_events : List LoopEvent
first_events = commit (bytes "a1") ∷ changed emptied ∷ changed checkout ∷ []

two_commits :
    sync_loop
      (car_storage mapped_raw)
      (first_events ++ commit (bytes "b2") ∷ map changed (emptied ∷ []))
      (on_disk manifests)
    ≡ ok (change emptied (on_disk synced))
unfolding change sync_loop sync_round sync compute_mappings walk_directory_for_files add_files
    is_valid_file keys ext split clean join key_of_file read_file fails lookup
    decode_partial_objects first_object object_key_for metav1_name_identify render resolve stat
    key_beq nilable_beq insert set_mappings identify
two_commits = refl

storage_made : new_git_storage (car_storage mapped_raw) (ok tt) (bytes "/repo") checkout ≡ ok synced
unfolding new_git_storage new_generic_mapped_raw_storage sync compute_mappings
    walk_directory_for_files add_files is_valid_file keys ext split clean join key_of_file read_file
    fails lookup decode_partial_objects first_object object_key_for metav1_name_identify render
    resolve stat key_beq nilable_beq insert set_mappings identify
storage_made = refl

sync_loop-Follows_example :
    (st0 : Tracked) × (sync_loop (car_storage mapped_raw) first_events (on_disk manifests) ≡ ok st0)
    × Follows (car_storage mapped_raw) st0 (change emptied (on_disk synced)).raw.file_mappings
sync_loop-Follows_example =
    sync_loop-Follows (car_storage mapped_raw) first_events (bytes "b2") (emptied ∷ [])
      (on_disk manifests) (change emptied (on_disk synced)) two_commits

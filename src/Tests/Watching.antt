-- ===== src/Tests/Watching.antt =====
-- The watch storage at concrete inputs.
use libgitops.Prelude.Text.{join}
use libgitops.FilePath.{clean}
use libgitops.Prelude.Text.{split}
use libgitops.FilePath.{ext}
use libgitops.Watcher.Valid.{is_valid_file}
use libgitops.Fs.{file_exists}
use libgitops.Key.{key_beq}
use libgitops.Key.{nilable_beq}
use libgitops.Storage.{create}
use libgitops.Storage.{new_generic_storage}
use libgitops.Fs.{fails}
use libgitops.Fs.{read_file}
use libgitops.Prelude.{◌≡◌, refl, true, false, none, some, List, [], ◌∷◌}
use libgitops.Prelude.Text.{Str, bytes, text_eq}
use libgitops.Prelude.Dict.{lookup}
use libgitops.Prelude.Outcome.{ok, err, already_exists, no_mapping_found}
use libgitops.Key.{key_eq}
use libgitops.Runtime.{Object, metav1_name_identify}
use libgitops.Raw.Mapped
use libgitops.Raw.Mapped.{MappedRawStorage, mapped_raw}
use libgitops.Storage.{object_key_for}
use libgitops.Watcher.{
  FileWatcher, FileUpdate, EventInfo, in_close_write, file_event_none, file_event_modify,
  file_event_delete, default_options,
}
use libgitops.Watcher.Monitor.{pending, monitor_step}
use libgitops.Watcher.Monitor.Laws.{is_watched}
use libgitops.Watch
use libgitops.Watch.{
  Setup, WatchStorage, object_event_create, object_event_delete, read_object, deleted_object,
  object_event_modify,
}
use libgitops.Watch.Laws.{mapped_setup}
use libgitops.Watch.Suspension.{monitor_step-failed_create}
use libgitops.Tests.Samples.{car, car_key, bike_key, manifests, car_serializer}

abbrev setup : Setup MappedRawStorage
setup = mapped_setup car_serializer (metav1_name_identify ∷ [])

abbrev quiet : FileWatcher
quiet = record {
  dir = bytes "/repo";
  opts = default_options;
  suspend_event = file_event_none;
  batcher = record { duration = 1000; timer = none; waiting = 0; closed = false; sync_map = [] };
  move_caches = [];
  updates = [];
}

-- A storage with both mappings, and one with none.
abbrev watched_manifests : WatchStorage MappedRawStorage
watched_manifests = record { world = manifests; watcher = quiet; events = some [] }

abbrev unmapped : WatchStorage MappedRawStorage
unmapped = record {
  world = record manifests { file_mappings = [] };
  watcher = quiet;
  events = some [];
}

abbrev car_path : Str
car_path = bytes "/repo/car.yaml"

abbrev part_car : Object
part_car = record car { is_partial = true }

car_read : read_object setup car_path unmapped ≡ ok part_car
unfolding read_object read_file fails lookup new_generic_storage
car_read = refl

bike_read : read_object setup (bytes "/repo/bike.yaml") watched_manifests ≡ ok part_car
unfolding read_object read_file fails lookup new_generic_storage
bike_read = refl

part_car_key : object_key_for setup.storage part_car ≡ ok car_key
unfolding object_key_for new_generic_storage metav1_name_identify
part_car_key = refl

no_mapping : Mapped.get_key unmapped.world car_path ≡ err no_mapping_found
unfolding Mapped.get_key
no_mapping = refl

car_mapping : Mapped.get_key watched_manifests.world car_path ≡ ok (some car_key)
unfolding Mapped.get_key
car_mapping = refl

-- The file of the car is deleted, and the one of the bike is written, with a car in it.
abbrev two_updates : List FileUpdate
two_updates =
    record { event = file_event_delete; path = car_path }
    ∷ record { event = file_event_modify; path = bytes "/repo/bike.yaml" }
    ∷ []

abbrev after_updates : WatchStorage MappedRawStorage
after_updates = record watched_manifests {
  world = record manifests { file_mappings = (some bike_key, bytes "/repo/bike.yaml") ∷ [] };
  events = some (
      record { event = object_event_delete; partial_object = deleted_object car_key }
      ∷ record { event = object_event_modify; partial_object = part_car }
      ∷ []);
}

abbrev after_failure : WatchStorage MappedRawStorage
after_failure = (Watch.create setup 9 car watched_manifests).0

car_refused : Watch.create setup 9 car watched_manifests ≡ (after_failure, car, err already_exists)
unfolding Watch.create create object_key_for new_generic_storage metav1_name_identify
    Mapped.mapped_raw Mapped.exists lookup nilable_beq key_beq file_exists fails
car_refused = refl

abbrev bike_written : EventInfo
bike_written = record {
  event = in_close_write;
  path = bytes "/repo/bike.yaml";
  is_dir = false;
  cookie = 0;
}

bike_watched : is_watched default_options bike_written ≡ true
unfolding is_watched is_valid_file ext split clean join
bike_watched = refl

monitor_step-failed_create_example :
    (pending (bytes "/repo/bike.yaml") (monitor_step 5 bike_written after_failure.watcher)
      ≡ pending (bytes "/repo/bike.yaml") quiet)
    × ((monitor_step 5 bike_written after_failure.watcher).suspend_event ≡ file_event_none)
monitor_step-failed_create_example =
    monitor_step-failed_create setup 9 car car watched_manifests after_failure already_exists 5
      bike_written (bytes "/repo/bike.yaml") car_refused bike_watched refl

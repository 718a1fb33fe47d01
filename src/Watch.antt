-- ===== src/Watch.antt =====
-- pkg/storage/watch/storage.go: `GenericWatchStorage`, which keeps the mappings of a mapped raw
-- storage up to date with the disk and sends events. The updates of the watcher are arguments.
pub mod Laws
pub mod Handled
pub mod Deletions
pub mod Suspension
use libgitops.Prelude.{ℕ, true, Option, none, some, List, [], ◌∷◌, ◌++◌}
use libgitops.Prelude.Text.{Str, bytes}
use libgitops.Prelude.Outcome.{Outcome, Done, ok, err, panic, ◌>>=◌}
use libgitops.Key.{ObjectKey}
use libgitops.Fs.{Fs, read_file}
use libgitops.Runtime.{Object}
use libgitops.Storage
use libgitops.Storage.{GenericStorage, object_key_for}
use libgitops.Watcher
use libgitops.Watcher.{
  FileWatcher, FileUpdate, file_event_none, file_event_modify, file_event_delete, file_event_move,
}

-- pkg/storage/watch/update/event.go
pub data ObjectEvent : Type 0 where
  object_event_none object_event_create object_event_modify object_event_delete : ObjectEvent

-- `Update`, without the storage that it comes from.
pub record Update : Type 0 where
  pub event : ObjectEvent
  pub partial_object : Object

-- What `MappedRawStorage` has beyond `RawStorage`, as far as it is used here.
pub record Mappings (W : Type 0) : Type 0 where
  pub add : Option ObjectKey → Str → W → W
  pub remove : Option ObjectKey → W → W

-- The storage, its raw storage as a mapped one if it is one, and the disk of its world.
pub record Setup (W : Type 0) : Type 0 where
  pub storage : GenericStorage W
  pub mapped : Option (Mappings W)
  pub disk : W → Fs

-- `GenericWatchStorage`: `events` is what was written to the stream, if one is set.
pub record WatchStorage (W : Type 0) : Type 0 where
  pub world : W
  pub watcher : FileWatcher
  pub events : Option (List Update)

abbrev pub event_delete_object_name : Str
event_delete_object_name = bytes "<deleted>"

-- The object that stands for one that was deleted.
unfoldable pub deleted_object : ObjectKey → Object
deleted_object key = record {
  type_meta = key.kind_key;
  namespace = [];
  name = event_delete_object_name;
  uid = key.identifier;
  creation_timestamp = 0;
  annotations = none;
  is_partial = true;
  spec = [];
}

module _ {W : Type 0} (s : Setup W) where
  -- `Create`, `Update`, `Patch` and `Delete`
  unfoldable pub create : ℕ → Object → WatchStorage W → WatchStorage W × Object × Done
  create now obj ws =
      let w = Watcher.suspend file_event_modify ws.watcher in
      let (world, obj1, result) = Storage.create s.storage now ws.world obj in
      (record ws { world = world; watcher = w }, obj1, result)

  unfoldable pub update : ℕ → Object → WatchStorage W → WatchStorage W × Object × Done
  update now obj ws =
      let w = Watcher.suspend file_event_modify ws.watcher in
      let (world, obj1, result) = Storage.update s.storage now ws.world obj in
      (record ws { world = world; watcher = w }, obj1, result)

  unfoldable pub patch : ObjectKey → Str → WatchStorage W → WatchStorage W × Done
  patch key delta ws =
      let w = Watcher.suspend file_event_modify ws.watcher in
      let (world, result) = Storage.patch s.storage ws.world key delta in
      (record ws { world = world; watcher = w }, result)

  unfoldable pub delete : ObjectKey → WatchStorage W → WatchStorage W × Done
  delete key ws =
      let w = Watcher.suspend file_event_delete ws.watcher in
      let (world, result) = Storage.delete s.storage ws.world key in
      (record ws { world = world; watcher = w }, result)

  unfoldable pub set_update_stream : WatchStorage W → WatchStorage W
  set_update_stream ws = record ws { events = some [] }

  unfoldable pub send_event : ObjectEvent → Object → WatchStorage W → WatchStorage W
  send_event event obj ws = elim ws.events [
    | none ↦ ws
    | some sent ↦ record ws {
      events = some (sent ++ (record { event = event; partial_object = obj } ∷ []));
    }
  ]

  -- `addMapping`: an error of `ObjectKeyFor` is only logged, and the key is nil then.
  unfoldable pub add_mapping : Object → Str → WatchStorage W → Outcome (WatchStorage W)
  add_mapping obj file ws = elim s.mapped [
    | none ↦ ok ws
    | some m ↦ elim (object_key_for s.storage obj) [
      | ok key ↦ ok (record ws { world = m.add (some key) file ws.world })
      | err e ↦ ok (record ws { world = m.add none file ws.world })
      | panic ↦ panic
    ]
  ]

  unfoldable pub remove_mapping : ObjectKey → WatchStorage W → WatchStorage W
  remove_mapping key ws = elim s.mapped [
    | none ↦ ws
    | some m ↦ record ws { world = m.remove (some key) ws.world }
  ]

  -- The partial object in a file.
  unfoldable pub read_object : Str → WatchStorage W → Outcome Object
  read_object file ws = do
    content ← read_file (s.disk ws.world) file
    s.storage.serializer.new_partial_object content

  -- The first loop of `monitorFunc`: a file that cannot be read or decoded is skipped.
  unfoldable pub register_files : List Str → WatchStorage W → Outcome (WatchStorage W)
  register_files [] ws = ok ws
  register_files (file ∷ files) ws = elim (read_object file ws) [
    | err e ↦ register_files files ws
    | panic ↦ panic
    | ok obj ↦ do
      ws1 ← add_mapping obj file ws
      register_files files (send_event object_event_modify obj ws1)
  ]

  -- The part of the second loop for a deleted file. A nil key panics in `key.GetGVK`.
  unfoldable pub handle_delete : Str → WatchStorage W → Outcome (WatchStorage W)
  handle_delete path ws = elim (s.storage.raw.get_key ws.world path) [
    | err e ↦ ok ws
    | panic ↦ panic
    | ok found ↦ elim found [
      | none ↦ panic
      | some key ↦ ok (send_event object_event_delete (deleted_object key) (remove_mapping key ws))
    ]
  ]

  -- `objectEvent != update.ObjectEventNone`
  unfoldable pub send_unless_none : ObjectEvent → Object → WatchStorage W → WatchStorage W
  send_unless_none object_event_none obj ws = ws
  send_unless_none event obj ws = send_event event obj ws

  -- The part for a file that was written, with the object in it.
  unfoldable pub handle_write :
      ObjectEvent → Str → Object → WatchStorage W → Outcome (WatchStorage W)
  handle_write event path obj ws = elim (s.storage.raw.get_key ws.world path) [
    | ok found ↦ ok (send_unless_none event obj ws)
    | panic ↦ panic
    | err e ↦ do ws1 ← add_mapping obj path ws; ok (send_event object_event_create obj ws1)
  ]

  -- The part for a file that is there, with the object in it.
  unfoldable pub handle_object : FileUpdate → Object → WatchStorage W → Outcome (WatchStorage W)
  handle_object u obj ws = elim u.event [
    | file_event_move ↦ add_mapping obj u.path ws
    | file_event_modify ↦ handle_write object_event_modify u.path obj ws
    | file_event_delete ↦ ok ws
    | file_event_none ↦ handle_write object_event_none u.path obj ws
  ]

  -- One round of the second loop of `monitorFunc`.
  unfoldable pub handle_update : FileUpdate → WatchStorage W → Outcome (WatchStorage W)
  handle_update u ws = elim u.event [
    | file_event_delete ↦ handle_delete u.path ws
    | _ ↦ elim (read_object u.path ws) [
      | err e ↦ ok ws
      | panic ↦ panic
      | ok obj ↦ handle_object u obj ws
    ]
  ]

  -- `monitorFunc`, on the updates that come before the watcher closes its stream.
  unfoldable pub handle_updates : List FileUpdate → WatchStorage W → Outcome (WatchStorage W)
  handle_updates [] ws = ok ws
  handle_updates (u ∷ us) ws = do ws1 ← handle_update u ws; handle_updates us ws1

  unfoldable pub monitor_func :
      List Str → List FileUpdate → WatchStorage W → Outcome (WatchStorage W)
  monitor_func files us ws = do ws1 ← register_files files ws; handle_updates us ws1

-- ===== src/Watcher.antt =====
-- pkg/util/watcher: the types of event.go and filewatcher.go. The channels are read from outside:
-- the inotify events come as arguments, and the stream of updates is the list of what was sent.
pub mod Valid
pub mod Concatenate
pub mod Moves
pub mod Monitor
use libgitops.Prelude.{ℕ, Bool, true, false, List, [], ◌∷◌, ◌++◌, map}
use libgitops.Prelude.Text.{Str, bytes, join, text_eq}
use libgitops.Prelude.Dict.{Dict}
use libgitops.Batcher.{BatchWriter, new_batch_writer}

-- The inotify events that are listened to.
pub data NotifyEvent : Type 0 where
  in_delete in_close_write in_moved_from in_moved_to : NotifyEvent

abbrev pub listen_events : List NotifyEvent
listen_events = in_delete ∷ in_close_write ∷ in_moved_from ∷ in_moved_to ∷ []

-- `notify.EventInfo` with the fields of its `unix.InotifyEvent` that are read.
pub record EventInfo : Type 0 where
  pub event : NotifyEvent
  pub path : Str
  pub is_dir : Bool
  pub cookie : ℕ

pub data FileEvent : Type 0 where
  file_event_none file_event_modify file_event_delete file_event_move : FileEvent

pub record FileUpdate : Type 0 where
  pub event : FileEvent
  pub path : Str

pub record Options : Type 0 where
  pub exclude_dirs : List Str
  pub batch_timeout : ℕ
  pub valid_extensions : List Str

-- In milliseconds.
abbrev pub default_options : Options
default_options = record {
  exclude_dirs = bytes ".git" ∷ [];
  batch_timeout = 1000;
  valid_extensions = bytes ".yaml" ∷ bytes ".yml" ∷ bytes ".json" ∷ [];
}

-- `FileWatcher`, with the package's variable `moveCaches`: the events that wait for their
-- counterpart, by cookie.
pub record FileWatcher : Type 0 where
  pub dir : Str
  pub opts : Options
  pub suspend_event : FileEvent
  pub batcher : BatchWriter Str (List EventInfo)
  pub move_caches : Dict ℕ EventInfo
  pub updates : List FileUpdate

unfoldable pub new_file_watcher : Str → Options → FileWatcher
unfolding new_batch_writer
new_file_watcher dir opts = record {
  dir = dir;
  opts = opts;
  suspend_event = file_event_none;
  batcher = new_batch_writer opts.batch_timeout;
  move_caches = [];
  updates = [];
}

abbrev pub event_eq : FileEvent → FileEvent → Bool
event_eq file_event_none file_event_none = true
event_eq file_event_modify file_event_modify = true
event_eq file_event_delete file_event_delete = true
event_eq file_event_move file_event_move = true
event_eq _ _ = false

abbrev pub notify_eq : NotifyEvent → NotifyEvent → Bool
notify_eq in_delete in_delete = true
notify_eq in_close_write in_close_write = true
notify_eq in_moved_from in_moved_from = true
notify_eq in_moved_to in_moved_to = true
notify_eq _ _ = false

-- `convertEvent`, with the entries of `eventMap`.
unfoldable pub convert_event : NotifyEvent → FileEvent
convert_event in_delete = file_event_delete
convert_event in_close_write = file_event_modify
convert_event _ = file_event_none

unfoldable pub event_string : FileEvent → Str
event_string file_event_none = bytes "NONE"
event_string file_event_modify = bytes "MODIFY"
event_string file_event_delete = bytes "DELETE"
event_string file_event_move = bytes "MOVE"

unfoldable pub events_string : List FileEvent → Str
unfolding event_string
events_string es = join (bytes ",") (map event_string es)

-- `Suspend`
unfoldable pub suspend : FileEvent → FileWatcher → FileWatcher
suspend e w = record w { suspend_event = e }

-- `sendUpdate`
unfoldable pub send_update : FileUpdate → FileWatcher → FileWatcher
send_update u w = record w { updates = w.updates ++ (u ∷ []) }

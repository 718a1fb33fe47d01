-- ===== src/Watcher/Monitor.antt =====
-- pkg/util/watcher/filewatcher.go: `monitorFunc` and `dispatchFunc`, one step of their loops each.
pub mod Laws
use libgitops.Prelude.{
  ℕ, ◌≡◌, Bool, true, false, ◌&&◌, not, Option, none, some, List, [], ◌∷◌, ◌++◌, if◌then◌else◌,
}
use libgitops.Prelude.Text.{Str, text_eq}
use libgitops.Prelude.Outcome.{Outcome, ok, err, panic, ◌>>=◌}
use libgitops.Batcher.{Batch, blocked, stopped, visited, load, store, process_batch}
use libgitops.Watcher.{FileWatcher, EventInfo, FileEvent, file_event_none, convert_event, event_eq}
use libgitops.Watcher.Valid.{is_valid_file}
use libgitops.Watcher.Concatenate.{dispatch}

-- `w.suspendEvent > 0 && updateEvent == w.suspendEvent`
unfoldable pub is_suspended : FileEvent → EventInfo → Bool
is_suspended suspended e =
    not (event_eq suspended file_event_none) && event_eq (convert_event e.event) suspended

-- The events of a file that are stored so far.
unfoldable pub pending : Str → FileWatcher → List EventInfo
unfolding load
pending p w = elim (load p w.batcher) [ none ↦ [] | some events ↦ events ]

unfoldable pub register : ℕ → EventInfo → FileWatcher → FileWatcher
register now e w = record w { batcher = store now e.path (pending e.path w ++ (e ∷ [])) w.batcher }

-- One round of the loop of `monitorFunc`, for an event that comes at the given time.
unfoldable pub monitor_step : ℕ → EventInfo → FileWatcher → FileWatcher
monitor_step now e w =
    if e.is_dir
    then w
    else if not (is_valid_file e.path w.opts.valid_extensions w.opts.exclude_dirs)
    then w
    else if is_suspended w.suspend_event e
    then record w { suspend_event = file_event_none }
    else register now e w

-- `monitorFunc` on the events that come before the channel is closed, each with its time.
unfoldable pub monitor_func : List (ℕ × EventInfo) → FileWatcher → FileWatcher
monitor_func [] w = w
monitor_func ((now, e) ∷ events) w = monitor_func events (monitor_step now e w)

-- One entry of the batch, in the state that the entries before it have left.
dispatch_entry : Str → List EventInfo → Outcome FileWatcher → Outcome FileWatcher × Bool
dispatch_entry key events o = (do w ← o; dispatch ((key, events) ∷ []) w, true)

-- One round of the loop of `dispatchFunc`.
unfoldable pub dispatch_func : FileWatcher → Outcome (FileWatcher × Bool)
unfolding dispatch_entry
dispatch_func w =
    let (batcher, batch) = process_batch dispatch_entry (ok w) w.batcher in
    elim batch [
      | blocked ↦ ok (w, true)
      | stopped ↦ ok (w, false)
      | visited o ↦ do w1 ← o; ok (record w1 { batcher = batcher }, true)
    ]

-- ===== src/Tests/Watchers.antt =====
-- Runs of the file watcher and the batch writer, and the theorems on them at these inputs.
use libgitops.Prelude.{
  nat_beq, if◌then◌else◌, ℕ, ◌≡◌, refl, Bool, true, false, none, some, List, [], ◌∷◌, ◌++◌, inl,
  keep_if, arith,
}
use libgitops.Prelude.Text.{Str, bytes, text_eq}
use libgitops.Prelude.Equality.{nat_eq}
use libgitops.Prelude.Dict.{lookup}
use libgitops.Prelude.Outcome.{ok, panic}
use libgitops.Batcher.{BatchWriter, new_batch_writer, store, fire, close}
use libgitops.Batcher.Laws.{fire-close}
use libgitops.Watcher.{
  FileWatcher, EventInfo, FileUpdate, in_delete, in_close_write, in_moved_from, in_moved_to,
  file_event_modify, new_file_watcher, default_options, suspend,
}
use libgitops.Watcher.Valid.{Visit, walk_directory_for_files, walk_directory_for_files-exclude}
use libgitops.Watcher.Moves.{moved_to_path, expire}
use libgitops.Watcher.Concatenate.{concatenate_events, dispatch}
use libgitops.Watcher.Concatenate.Laws.{
  NoMoves, replay, presence, concatenate_events_total, concatenate_events-presence,
  write-delete_unseen,
}
use libgitops.Watcher.Concatenate.Pairs.{Sends, lone_update, dispatch-move, expire-lone}
use libgitops.Watcher.Monitor.{pending, monitor_func}
use libgitops.Watcher.Monitor.Laws.{of_path, skip_first, watched, pending-monitor_func}

abbrev manifest : Str
manifest = bytes "/m/a.yaml"

abbrev written : EventInfo
written = record { event = in_close_write; path = manifest; is_dir = false; cookie = 0 }

abbrev deleted : EventInfo
deleted = record { event = in_delete; path = manifest; is_dir = false; cookie = 0 }

abbrev moved_away : EventInfo
moved_away = record { event = in_moved_from; path = manifest; is_dir = false; cookie = 7 }

abbrev moved_in : EventInfo
moved_in = record { event = in_moved_to; path = bytes "/m/b.yaml"; is_dir = false; cookie = 7 }

abbrev idle : FileWatcher
unfolding new_file_watcher new_batch_writer
idle = new_file_watcher (bytes "/m") default_options

abbrev batch_events : List EventInfo
batch_events = deleted ∷ written ∷ deleted ∷ written ∷ []

abbrev git_visits : List Visit
git_visits =
    record { path = bytes "/m/.git/a.yaml"; is_dir = false; error = none }
    ∷ record { path = bytes "/m/b.txt"; is_dir = false; error = none }
    ∷ []

walk_directory_for_files-exclude_example :
    walk_directory_for_files git_visits (bytes ".yaml" ∷ []) (bytes ".git" ∷ [])
    ≡ walk_directory_for_files git_visits (bytes ".yaml" ∷ []) []
walk_directory_for_files-exclude_example =
    walk_directory_for_files-exclude git_visits (bytes ".yaml" ∷ []) (bytes ".git" ∷ [])

concatenate_events_total_example :
    (w1 : FileWatcher) × (us : List FileUpdate) × (concatenate_events
        (batch_events ++ (moved_away ∷ []))
        idle
      ≡ ok (w1, us))
concatenate_events_total_example = concatenate_events_total (batch_events ++ (moved_away ∷ [])) idle

concatenate_events-presence_example :
    (us : List FileUpdate) × (concatenate_events batch_events idle ≡ ok (idle, us))
    × (replay false us ≡ presence false batch_events)
unfolding NoMoves
concatenate_events-presence_example =
    concatenate_events-presence batch_events idle
      (refl, refl, (refl, refl, (refl, refl, (refl, refl, tt))))

write-delete_unseen_example :
    concatenate_events (written ∷ deleted ∷ moved_away ∷ []) idle
    ≡ concatenate_events (moved_away ∷ []) idle
write-delete_unseen_example = write-delete_unseen written deleted (moved_away ∷ []) idle refl refl

dispatch-move_example :
    Sends
      ((manifest, moved_away ∷ []) ∷ (bytes "/m/b.yaml", moved_in ∷ []) ∷ [])
      (moved_to_path (bytes "/m/b.yaml"))
      7
      idle
    × Sends
        ((bytes "/m/b.yaml", moved_in ∷ []) ∷ (manifest, moved_away ∷ []) ∷ [])
        (moved_to_path (bytes "/m/b.yaml"))
        7
        idle
unfolding new_file_watcher lookup
dispatch-move_example =
    dispatch-move manifest (bytes "/m/b.yaml") moved_away moved_in idle refl refl refl refl

expire-lone_example :
    (w1 w2 : FileWatcher) × (dispatch ((manifest, moved_away ∷ []) ∷ []) idle ≡ ok w1)
    × (w1.updates ≡ idle.updates)
    × (expire 7 w1 ≡ ok w2)
    × (w2.updates ≡ idle.updates ++ (lone_update moved_away ∷ []))
    × (lookup 7 w2.move_caches ≡ none)
unfolding new_file_watcher lookup
expire-lone_example = expire-lone manifest moved_away idle (inl refl) refl

pending-monitor_func_example :
    pending manifest (
      monitor_func
        ((1, written) ∷ (2, deleted) ∷ (3, written) ∷ [])
        (suspend file_event_modify idle))
    ≡ pending manifest (suspend file_event_modify idle)
      ++ keep_if (of_path manifest) (
          skip_first (suspend file_event_modify idle).suspend_event (
            watched
              (suspend file_event_modify idle).opts
              ((1, written) ∷ (2, deleted) ∷ (3, written) ∷ [])))
pending-monitor_func_example =
    pending-monitor_func manifest ((1, written) ∷ (2, deleted) ∷ (3, written) ∷ [])
      (suspend file_event_modify idle)

abbrev collect : Str → ℕ → List (Str × ℕ) → List (Str × ℕ) × Bool
collect k v seen = ((k, v) ∷ seen, true)

abbrev pending_writes : BatchWriter Str ℕ
pending_writes = record {
  duration = 10;
  timer = some 5;
  waiting = 0;
  closed = false;
  sync_map = (manifest, 1) ∷ [];
}

fire-close_example :
    (c : BatchWriter Str ℕ) × (close (store 4 manifest 2 pending_writes)
      ≡ (if nat_beq pending_writes.waiting 0 then ok c else panic))
    × (fire 14 c ≡ panic)
fire-close_example = fire-close 4 14 manifest 2 pending_writes refl (omega arith)

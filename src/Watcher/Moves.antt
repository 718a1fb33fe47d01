-- ===== src/Watcher/Moves.antt =====
-- pkg/util/watcher/filewatcher.go: `moveCache` and `move`, which join the two events of a move.
-- A cache object is live from its creation until it is cancelled or its timer fires, and for that
-- time it is in `moveCaches`.
use libgitops.Prelude.{ℕ, Option, none, some}
use libgitops.Prelude.Equality.{nat_eq}
use libgitops.Prelude.Text.{Str}
use libgitops.Prelude.Dict.{lookup, insert, erase}
use libgitops.Prelude.Outcome.{Outcome, ok, panic}
use libgitops.Watcher.{
  FileWatcher, EventInfo, FileUpdate, in_moved_from, in_moved_to, file_event_delete,
  file_event_modify, file_event_move, send_update,
}

-- `newMoveCache`, and its place in the map.
unfoldable pub new_move_cache : EventInfo → FileWatcher → FileWatcher
new_move_cache event w = record w { move_caches = insert event.cookie event w.move_caches }

-- `cancel`
unfoldable pub cancel : EventInfo → FileWatcher → FileWatcher
cancel cache w = record w { move_caches = erase cache.cookie w.move_caches }

abbrev pub moved_to_path : Str → FileUpdate
moved_to_path dest = record { event = file_event_move; path = dest }

-- `move`
unfoldable pub move : EventInfo → FileWatcher → FileWatcher × Option FileUpdate
unfolding new_move_cache cancel
move event w = elim (lookup event.cookie w.move_caches) [
  | none ↦ (new_move_cache event w, none)
  | some cache ↦ elim event.event [
    | in_moved_from ↦ (cancel cache w, some (moved_to_path cache.path))
    | in_moved_to ↦ (cancel cache w, some (moved_to_path event.path))
    | _ ↦ (w, none)
  ]
]

-- `incomplete`
unfoldable pub incomplete : EventInfo → FileWatcher → Outcome FileWatcher
unfolding cancel send_update
incomplete cache w = elim cache.event [
  | in_moved_from ↦
      ok (cancel cache (send_update (record { event = file_event_delete; path = cache.path }) w))
  | in_moved_to ↦
      ok (cancel cache (send_update (record { event = file_event_modify; path = cache.path }) w))
  | _ ↦ panic
]

-- The timer of the cache object with the given cookie runs out, if there is one.
unfoldable pub expire : ℕ → FileWatcher → Outcome FileWatcher
unfolding incomplete
expire cookie w = elim (lookup cookie w.move_caches) [
  | none ↦ ok w
  | some cache ↦ incomplete cache w
]

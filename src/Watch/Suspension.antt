-- ===== src/Watch/Suspension.antt =====
-- pkg/storage/watch/storage.go: the events that the storage's own operations suspend.
use libgitops.Prelude.{ℕ, ◌≡◌, ◌∙◌, ap, sym, refl, true, arith}
use libgitops.Prelude.Text.{Str, text_eq}
use libgitops.Prelude.Outcome.{err, Error}
use libgitops.Runtime.{Object}
use libgitops.Watcher
use libgitops.Watcher.{
  FileWatcher, EventInfo, in_close_write, file_event_none, file_event_modify, convert_event,
}
use libgitops.Watcher.Monitor.{is_suspended, pending, monitor_step}
use libgitops.Watcher.Monitor.Laws.{is_watched, monitor_step-watched}
use libgitops.Watch
use libgitops.Watch.{Setup, WatchStorage}

module _ {W : Type 0} (s : Setup W) where
  suspended_modify :
      (w : FileWatcher) (e : EventInfo)
      → e.event ≡ in_close_write
      → is_suspended (Watcher.suspend file_event_modify w).suspend_event e ≡ true
  unfolding is_suspended convert_event Watcher.suspend
  suspended_modify w e h = ground (arith, h)

  -- The next write to a watched file after a Create that failed is not stored for any file: the
  -- event that was suspended for the write of Create is taken from it, and no event is suspended
  -- any more.
  pub monitor_step-failed_create :
      (now : ℕ) (obj obj1 : Object) (ws ws1 : WatchStorage W) (x : Error) (t : ℕ) (e : EventInfo)
      (p : Str)
      → Watch.create s now obj ws ≡ (ws1, obj1, err x)
      → is_watched ws.watcher.opts e ≡ true
      → e.event ≡ in_close_write
      → (pending p (monitor_step t e ws1.watcher) ≡ pending p ws.watcher)
        × ((monitor_step t e ws1.watcher).suspend_event ≡ file_event_none)
  unfolding Watch.create pending Watcher.suspend
  monitor_step-failed_create now obj obj1 ws ws1 x t e p h v c =
      let w = Watcher.suspend file_event_modify ws.watcher in
      let same = ap (λ r. r.0.watcher) h in
      let step = monitor_step-watched t e w true v (suspended_modify ws.watcher e c) in
      (
        ap (λ y. pending p (monitor_step t e y)) (sym same) ∙ ap (pending p) step ∙ refl,
        ap (λ y. (monitor_step t e y).suspend_event) (sym same) ∙ ap (λ y. y.suspend_event) step,
      )

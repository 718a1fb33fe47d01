-- ===== src/Watcher/Monitor/Laws.antt =====
-- pkg/util/watcher/filewatcher.go: which events `monitorFunc` stores, and what `Suspend` holds back.
use libgitops.Prelude.{
  ℕ, ◌≡◌, ◌∙◌, refl, ap, Bool, true, false, ◌&&◌, not, List, [], ◌∷◌, ◌++◌, keep_if, arith,
  if◌then◌else◌, Bool-cases, inl, inr, sym, append-nil, append_assoc,
}
use libgitops.Prelude.Text.{Str, text_eq, str_eq, str_eq_iff}
use libgitops.Prelude.Dict.{lookup-insert}
use libgitops.Batcher.{load, store, cancel_unfired_timer, dispatch_after_timeout}
use libgitops.Watcher.{FileWatcher, EventInfo, FileEvent, file_event_none, Options}
use libgitops.Watcher.Valid.{is_valid_file}
use libgitops.Watcher.Monitor.{is_suspended, pending, register, monitor_step, monitor_func}

-- The event is of a file that the watcher looks at.
unfoldable pub is_watched : Options → EventInfo → Bool
is_watched opts e = not e.is_dir && is_valid_file e.path opts.valid_extensions opts.exclude_dirs

-- The events without the first that is suspended.
unfoldable pub skip_first : FileEvent → List EventInfo → List EventInfo
skip_first suspended [] = []
skip_first suspended (e ∷ events) =
    let rest = skip_first suspended events in if is_suspended suspended e then events else e ∷ rest

-- The watched events, without their times.
unfoldable pub watched : Options → List (ℕ × EventInfo) → List EventInfo
watched opts [] = []
watched opts ((now, e) ∷ events) =
    let rest = watched opts events in if is_watched opts e then e ∷ rest else rest

unfoldable pub of_path : Str → EventInfo → Bool
of_path p e = str_eq e.path p

skip_first_none : (events : List EventInfo) → skip_first file_event_none events ≡ events
unfolding skip_first is_suspended
skip_first_none [] = refl
skip_first_none (e ∷ events) = ap (λ r. e ∷ r) (skip_first_none events)

pending-register :
    (p : Str) (now : ℕ) (e : EventInfo) (w : FileWatcher)
    → pending p (register now e w) ≡ (if of_path p e then pending p w ++ (e ∷ []) else pending p w)
unfolding pending register store load cancel_unfired_timer dispatch_after_timeout of_path
pending-register p now e w = ground (
  arith,
  lookup-insert p e.path (pending e.path w ++ (e ∷ [])) w.batcher.sync_map,
  str_eq_iff e.path p,
)

monitor_step-unwatched :
    (now : ℕ) (e : EventInfo) (w : FileWatcher)
    → is_watched w.opts e ≡ false
    → monitor_step now e w ≡ w
unfolding monitor_step is_watched
monitor_step-unwatched now e w h = ground (arith, h)

pub monitor_step-watched :
    (now : ℕ) (e : EventInfo) (w : FileWatcher) (b : Bool)
    → is_watched w.opts e ≡ true
    → is_suspended w.suspend_event e ≡ b
    → monitor_step now e w
      ≡ (if b then record w { suspend_event = file_event_none } else register now e w)
unfolding monitor_step is_watched
monitor_step-watched now e w b v s = ground (arith, v, s)

append_if :
    (b : Bool) (e : EventInfo) (xs ys : List EventInfo)
    → (if b then xs ++ (e ∷ []) else xs) ++ ys ≡ xs ++ (if b then e ∷ ys else ys)
append_if true e xs ys = append_assoc xs (e ∷ []) ys
append_if false e xs ys = refl

-- What a watched event at the head of the list adds to the events that are let through.
skip_first-watched :
    (suspended : FileEvent) (opts : Options) (now : ℕ) (e : EventInfo)
    (events : List (ℕ × EventInfo)) (b : Bool)
    → is_watched opts e ≡ true
    → is_suspended suspended e ≡ b
    → skip_first suspended (watched opts ((now, e) ∷ events))
      ≡ (if b then watched opts events else e ∷ skip_first suspended (watched opts events))
unfolding skip_first watched
skip_first-watched suspended opts now e events b v s =
    let rest = watched opts events in
    ap (λ c. skip_first suspended (if c then e ∷ rest else rest)) v
    ∙ ap (λ c. if c then rest else e ∷ skip_first suspended rest) s

-- After the monitoring thread has taken events in, the events that are stored for a file are those
-- that were stored before, then all events of that file that are no directory's and of a
-- valid name, in order, without the first one of all that is suspended.
pub pending-monitor_func :
    (p : Str) (events : List (ℕ × EventInfo)) (w : FileWatcher)
    → pending p (monitor_func events w)
      ≡ pending p w ++ keep_if (of_path p) (skip_first w.suspend_event (watched w.opts events))
unfolding monitor_func register pending watched skip_first
pending-monitor_func p [] w = sym (append-nil (pending p w))
pending-monitor_func p ((now, e) ∷ events) w =
    let rest = watched w.opts events in
    elim (Bool-cases (is_watched w.opts e)) [
      | inr u ↦
          ap (λ w1. pending p (monitor_func events w1)) (monitor_step-unwatched now e w u)
          ∙ pending-monitor_func p events w
          ∙ ap
              (λ c.
                pending p w
                ++ keep_if (of_path p) (skip_first w.suspend_event (if c then e ∷ rest else rest)))
              (sym u)
      | inl v ↦ elim (Bool-cases (is_suspended w.suspend_event e)) [
        | inl s ↦
            ap (λ w1. pending p (monitor_func events w1)) (monitor_step-watched now e w true v s)
            ∙ pending-monitor_func p events (record w { suspend_event = file_event_none })
            ∙ ap (λ xs. pending p w ++ keep_if (of_path p) xs)
                (skip_first_none rest
                  ∙ sym (skip_first-watched w.suspend_event w.opts now e events true v s))
        | inr s ↦
            ap (λ w1. pending p (monitor_func events w1)) (monitor_step-watched now e w false v s)
            ∙ pending-monitor_func p events (register now e w)
            ∙ ap (λ xs. xs ++ keep_if (of_path p) (skip_first w.suspend_event rest))
                (pending-register p now e w)
            ∙ append_if (of_path p e) e (pending p w)
                (keep_if (of_path p) (skip_first w.suspend_event rest))
            ∙ ap (λ xs. pending p w ++ keep_if (of_path p) xs)
                (sym (skip_first-watched w.suspend_event w.opts now e events false v s))
      ]
    ]

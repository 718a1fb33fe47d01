-- ===== src/Watcher/Concatenate.antt =====
-- pkg/util/watcher/filewatcher.go: `combinedEvent`, `concatenateEvents` and `convertUpdate`, which
-- turn the events of one file in a batch into updates. A call of `concatenateEvents` for itself
-- has a shorter list, so that one step of fuel for each event, and one more, is enough.
pub mod Laws
pub mod Pairs
use libgitops.Prelude.{
  ℕ, zero, suc, Bool, true, false, ◌&&◌, Option, none, some, List, [], ◌∷◌, length, drop, ltb,
  if◌then◌else◌,
}
use libgitops.Prelude.Integers.{ℤ, pos, negsuc}
use libgitops.Prelude.Outcome.{Outcome, ok, err, panic, ◌>>=◌}
use libgitops.Watcher.{
  FileWatcher, EventInfo, FileUpdate, NotifyEvent, in_delete, in_close_write, in_moved_from,
  in_moved_to, file_event_none, convert_event, notify_eq, send_update,
}
use libgitops.Watcher.Moves.{move}
use libgitops.Prelude.Text.{Str}

pub record CombinedEvent : Type 0 where
  pub input : List NotifyEvent
  pub output : ℤ

-- DELETE and MODIFY make MODIFY, and MODIFY and DELETE make nothing.
abbrev pub combined_events : List CombinedEvent
combined_events =
    record { input = in_delete ∷ in_close_write ∷ []; output = pos 1 }
    ∷ record { input = in_close_write ∷ in_delete ∷ []; output = negsuc 0 }
    ∷ []

-- `events[i]`
abbrev pub get_elem? {ℓ} : {A : Type ℓ} → List A → ℕ → Option A
get_elem? [] n = none
get_elem? (x ∷ xs) zero = some x
get_elem? (x ∷ xs) (suc n) = get_elem? xs n

-- The loop of `match`.
same_prefix : List NotifyEvent → List EventInfo → Bool
same_prefix [] events = true
same_prefix (x ∷ input) [] = false
same_prefix (x ∷ input) (e ∷ events) = notify_eq e.event x && same_prefix input events

output_event : ℤ → List EventInfo → Option EventInfo
output_event (pos zero) events = none
output_event (pos (suc n)) events = get_elem? events (suc n)
output_event (negsuc n) events = none

-- `match`
unfoldable pub match_events : CombinedEvent → List EventInfo → Option EventInfo × Bool
unfolding same_prefix output_event
match_events c events =
    if ltb (length events) (length c.input)
    then (none, false)
    else if same_prefix c.input events
    then (output_event c.output events, true)
    else (none, false)

-- The first loop of `concatenateEvents`: the list for its call of itself, if a combination matches.
unfoldable pub combine : List CombinedEvent → List EventInfo → Option (List EventInfo)
unfolding match_events
combine [] events = none
combine (c ∷ cs) events =
    let rest = combine cs events in
    let (event, matched) = match_events c events in
    if matched
    then some (elim event [
      | some e ↦ e ∷ drop (length c.input) events
      | none ↦ drop (length c.input) events
    ])
    else rest

-- The calls of `concatenateEvents` for itself.
unfoldable pub concatenate : ℕ → List EventInfo → Option (List EventInfo)
concatenate zero events = none
concatenate (suc fuel) events = elim (combine combined_events events) [
  | none ↦ some events
  | some shorter ↦ concatenate fuel shorter
]

-- `convertUpdate`
unfoldable pub convert_update : EventInfo → Outcome FileUpdate
unfolding convert_event
convert_update e = elim (convert_event e.event) [
  | file_event_none ↦ panic
  | event ↦ ok (record { event = event; path = e.path })
]

-- The body of the second loop of `concatenateEvents`.
unfoldable pub convert_one : EventInfo → FileWatcher → Outcome (FileWatcher × Option FileUpdate)
convert_one e w = elim e.event [
  | in_moved_from ↦ ok (move e w)
  | in_moved_to ↦ ok (move e w)
  | _ ↦ do u ← convert_update e; ok (w, some u)
]

abbrev pub cons_some : Option FileUpdate → List FileUpdate → List FileUpdate
cons_some none us = us
cons_some (some u) us = u ∷ us

-- The second loop of `concatenateEvents`.
unfoldable pub convert_all : List EventInfo → FileWatcher → Outcome (FileWatcher × List FileUpdate)
convert_all [] w = ok (w, [])
convert_all (e ∷ events) w = do
  (w1, u) ← convert_one e w
  (w2, us) ← convert_all events w1
  ok (w2, cons_some u us)

-- `concatenateEvents`
unfoldable pub concatenate_events :
    List EventInfo → FileWatcher → Outcome (FileWatcher × List FileUpdate)
concatenate_events events w = elim (concatenate (suc (length events)) events) [
  | none ↦ panic
  | some shorter ↦ convert_all shorter w
]

unfoldable pub send_all : List FileUpdate → FileWatcher → FileWatcher
send_all [] w = w
send_all (u ∷ us) w = send_all us (send_update u w)

-- The function that `dispatchFunc` gives to `ProcessBatch`, on the entries in the order of `Range`.
unfoldable pub dispatch : List (Str × List EventInfo) → FileWatcher → Outcome FileWatcher
unfolding send_all
dispatch [] w = ok w
dispatch ((key, events) ∷ batch) w = do
  (w1, us) ← concatenate_events events w
  dispatch batch (send_all us w1)

-- ===== src/Watcher/Concatenate/Laws.antt =====
-- pkg/util/watcher/filewatcher.go: that `concatenateEvents` ends, and what its updates tell about
-- whether the file is there.
use libgitops.Prelude.{
  ℕ, zero, suc, ◌<◌, ◌≡◌, refl, Bool, true, false, ◌&&◌, Option, none, some, List, [], ◌∷◌, length,
  arith, if◌then◌else◌, inl, inr, ◌⊎◌, Option-cases, sym, ◌∙◌,
}
use libgitops.Prelude.Outcome.{ok}
use libgitops.Watcher.{
  FileWatcher, EventInfo, FileUpdate, NotifyEvent, in_delete, in_close_write, in_moved_from,
  in_moved_to, file_event_none, file_event_modify, file_event_delete, file_event_move,
  convert_event, notify_eq,
}
use libgitops.Watcher.Moves.{move}
use libgitops.Watcher.Concatenate.{
  combine, combined_events, match_events, same_prefix, output_event, concatenate, convert_update,
  convert_one, convert_all, concatenate_events, cons_some,
}

NotifyEvent-cases :
    (e : NotifyEvent)
    → (e ≡ in_delete) ⊎ (e ≡ in_close_write) ⊎ (e ≡ in_moved_from) ⊎ (e ≡ in_moved_to)
NotifyEvent-cases in_delete = inl refl
NotifyEvent-cases in_close_write = inr (inl refl)
NotifyEvent-cases in_moved_from = inr (inr (inl refl))
NotifyEvent-cases in_moved_to = inr (inr (inr refl))

-- What `combine` does on two events and more.
combine_two : EventInfo → EventInfo → List EventInfo → Option (List EventInfo)
combine_two d e rest =
    if notify_eq d.event in_delete && notify_eq e.event in_close_write
    then some (e ∷ rest)
    else if notify_eq d.event in_close_write && notify_eq e.event in_delete
    then some rest
    else none

combine_lem :
    (d e : EventInfo) (rest : List EventInfo)
    → combine combined_events (d ∷ e ∷ rest) ≡ combine_two d e rest
unfolding combine match_events same_prefix output_event combine_two
combine_lem d e rest = ground arith

combine-one : (d : EventInfo) → combine combined_events (d ∷ []) ≡ none
unfolding combine match_events
combine-one d = ground arith

-- Whether a file is there after an event.
unfoldable pub leaves : NotifyEvent → Bool
leaves in_delete = false
leaves in_close_write = true
leaves in_moved_from = false
leaves in_moved_to = true

-- Whether the file is there after the events, from whether it was there before.
unfoldable pub presence : Bool → List EventInfo → Bool
presence b [] = b
presence b (e ∷ events) = presence (leaves e.event) events

-- Whether a reader of the updates takes the file to be there.
unfoldable pub replay : Bool → List FileUpdate → Bool
replay b [] = b
replay b (u ∷ us) = elim u.event [
  | file_event_none ↦ replay b us
  | file_event_modify ↦ replay true us
  | file_event_delete ↦ replay false us
  | file_event_move ↦ replay true us
]

-- No event of the list is a part of a move.
unfoldable pub NoMoves : List EventInfo → Type 0
NoMoves [] = Unit
NoMoves (e ∷ events) =
    (notify_eq e.event in_moved_from ≡ false)
    × (notify_eq e.event in_moved_to ≡ false)
    × NoMoves events

-- What one combination does: the list gets shorter, and a file that was not there before is as
-- present after the shorter list.
record Combined (events shorter : List EventInfo) : Type 0 where
  is_shorter : length shorter < length events
  same_presence : presence false shorter ≡ presence false events
  no_moves : NoMoves events → NoMoves shorter

combine_two-Combined :
    (d e : EventInfo) (rest shorter : List EventInfo)
    → combine_two d e rest ≡ some shorter
    → Combined (d ∷ e ∷ rest) shorter
unfolding combine_two presence leaves NoMoves
combine_two-Combined d e rest shorter h = record {
  is_shorter = ground arith;
  same_presence = ground arith;
  no_moves = λ m. ground arith;
}

combine-Combined :
    (events shorter : List EventInfo)
    → combine combined_events events ≡ some shorter
    → Combined events shorter
unfolding combine match_events
combine-Combined [] shorter h = ground arith
combine-Combined (d ∷ []) shorter h = ground (arith, combine-one d)
combine-Combined (d ∷ e ∷ rest) shorter h =
    combine_two-Combined d e rest shorter (sym (combine_lem d e rest) ∙ h)

-- What the calls of `concatenateEvents` for itself end with.
record Settled (events settled : List EventInfo) : Type 0 where
  is_settled : combine combined_events settled ≡ none
  same_presence : presence false settled ≡ presence false events
  no_moves : NoMoves events → NoMoves settled

concatenate-Settled :
    (fuel : ℕ) (events : List EventInfo)
    → length events < fuel
    → (settled : List EventInfo) × (concatenate fuel events ≡ some settled) × Settled events settled
unfolding concatenate
concatenate-Settled zero events h = ground arith
concatenate-Settled (suc fuel) events h = elim (Option-cases (combine combined_events events)) [
  | inl e ↦ (
    events,
    ground (arith, e),
    record { is_settled = e; same_presence = refl; no_moves = λ m. m },
  )
  | inr (shorter, e) ↦
      let c = combine-Combined events shorter e in
      let (settled, reached, s) =
        concatenate-Settled fuel shorter (omega (arith, h, c.is_shorter)) in
      (
        settled,
        ground (arith, e, reached),
        record {
          is_settled = s.is_settled;
          same_presence = s.same_presence ∙ c.same_presence;
          no_moves = λ m. s.no_moves (c.no_moves m);
        },
      )
]

convert_one_total :
    (e : EventInfo) (w : FileWatcher)
    → (w1 : FileWatcher) × (u : Option FileUpdate) × (convert_one e w ≡ ok (w1, u))
unfolding convert_one convert_update convert_event
convert_one_total e w = elim (NotifyEvent-cases e.event) [
  | inl h ↦ (w, some (record { event = file_event_delete; path = e.path }), ground (arith, h))
  | inr (inl h) ↦ (w, some (record { event = file_event_modify; path = e.path }), ground (arith, h))
  | inr (inr (inl h)) ↦ ((move e w).0, (move e w).1, ground (arith, h))
  | inr (inr (inr h)) ↦ ((move e w).0, (move e w).1, ground (arith, h))
]

convert_all_total :
    (events : List EventInfo) (w : FileWatcher)
    → (w1 : FileWatcher) × (us : List FileUpdate) × (convert_all events w ≡ ok (w1, us))
unfolding convert_all
convert_all_total [] w = (w, [], refl)
convert_all_total (e ∷ events) w =
    let (w1, u, h1) = convert_one_total e w in
    let (w2, us, h2) = convert_all_total events w1 in (w2, cons_some u us, ground (arith, h1, h2))

-- Every list of events is concatenated to a list of updates: the calls of the function for itself
-- end, and no event of the list is one that cannot be converted.
pub concatenate_events_total :
    (events : List EventInfo) (w : FileWatcher)
    → (w1 : FileWatcher) × (us : List FileUpdate) × (concatenate_events events w ≡ ok (w1, us))
unfolding concatenate_events
concatenate_events_total events w =
    let (settled, reached, s) = concatenate-Settled (suc (length events)) events (omega arith) in
    let (w1, us, h) = convert_all_total settled w in (w1, us, ground (arith, reached, h))

-- What the second loop does to events that are no moves.
convert_all-replay :
    (b : Bool) (events : List EventInfo) (w : FileWatcher)
    → NoMoves events
    → (us : List FileUpdate) × (convert_all events w ≡ ok (w, us))
      × (replay b us ≡ presence b events)
unfolding convert_all convert_one convert_update convert_event NoMoves replay presence leaves
convert_all-replay b [] w m = ([], refl, refl)
convert_all-replay b (e ∷ events) w m =
    let (us, h, r) = convert_all-replay (leaves e.event) events w m.2 in
    (
      record { event = convert_event e.event; path = e.path } ∷ us,
      ground (arith, h, m.0, m.1),
      ground (arith, r, m.0, m.1),
    )

-- For a file that was not there before a batch with no part of a move, the updates of the batch
-- tell a reader of them whether the file is there after it.
pub concatenate_events-presence :
    (events : List EventInfo) (w : FileWatcher)
    → NoMoves events
    → (us : List FileUpdate) × (concatenate_events events w ≡ ok (w, us))
      × (replay false us ≡ presence false events)
unfolding concatenate_events
concatenate_events-presence events w m =
    let (settled, reached, s) = concatenate-Settled (suc (length events)) events (omega arith) in
    let (us, h, r) = convert_all-replay false settled w (s.no_moves m) in
    (us, ground (arith, reached, h), r ∙ s.same_presence)

-- More fuel than there are events changes nothing.
concatenate-more :
    (fuel : ℕ) (events : List EventInfo)
    → length events < fuel
    → concatenate (suc fuel) events ≡ concatenate fuel events
unfolding concatenate
concatenate-more zero events h = ground arith
concatenate-more (suc fuel) events h = elim (Option-cases (combine combined_events events)) [
  | inl e ↦ ground (arith, e)
  | inr (shorter, e) ↦
      let c = combine-Combined events shorter e in
      let rest = concatenate-more fuel shorter (omega (arith, h, c.is_shorter)) in
      ground (arith, e, rest)
]

-- A write and a delete at the start of the events of a file leave no trace in the updates, also
-- for a file that was there before.
pub write-delete_unseen :
    (d e : EventInfo) (events : List EventInfo) (w : FileWatcher)
    → d.event ≡ in_close_write
    → e.event ≡ in_delete
    → concatenate_events (d ∷ e ∷ events) w ≡ concatenate_events events w
unfolding concatenate_events concatenate combine_two
write-delete_unseen d e events w hd he = ground (
  arith,
  combine_lem d e events,
  hd,
  he,
  concatenate-more (suc (length events)) events (omega arith),
)

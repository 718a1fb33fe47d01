-- ===== src/Watcher/Concatenate/Pairs.antt =====
-- pkg/util/watcher/filewatcher.go: the two events of a move. They have different paths, so that
-- they are two entries of a batch, in any order, or come in different batches.
use libgitops.Prelude.{
  ℕ, ◌≡◌, ◌∙◌, refl, sym, none, List, [], ◌∷◌, ◌++◌, arith, ◌⊎◌, inl, inr, nat_beq_iff,
}
use libgitops.Prelude.Text.{Str}
use libgitops.Prelude.Equality.{nat_eq}
use libgitops.Prelude.Dict.{lookup, lookup-insert, lookup-erase}
use libgitops.Prelude.Outcome.{ok}
use libgitops.Watcher.{
  FileWatcher, EventInfo, FileUpdate, in_moved_from, in_moved_to, file_event_delete,
  file_event_modify, send_update,
}
use libgitops.Watcher.Moves.{move, moved_to_path, new_move_cache, cancel, incomplete, expire}
use libgitops.Watcher.Concatenate.{
  combine, match_events, concatenate, convert_one, convert_all, concatenate_events, send_all,
  dispatch, cons_some,
}

-- A single event of a move is given to `move`.
concatenate_events-one :
    (e : EventInfo) (w : FileWatcher)
    → (e.event ≡ in_moved_from) ⊎ (e.event ≡ in_moved_to)
    → concatenate_events (e ∷ []) w ≡ ok ((move e w).0, cons_some (move e w).1 [])
unfolding concatenate_events concatenate combine match_events convert_all convert_one
concatenate_events-one e w (inl h) = ground (arith, h)
concatenate_events-one e w (inr h) = ground (arith, h)

-- The first event of a move is kept, and nothing is sent.
dispatch-first :
    (p : Str) (e : EventInfo) (batch : List (Str × List EventInfo)) (w : FileWatcher)
    → (e.event ≡ in_moved_from) ⊎ (e.event ≡ in_moved_to)
    → lookup e.cookie w.move_caches ≡ none
    → dispatch ((p, e ∷ []) ∷ batch) w ≡ dispatch batch (new_move_cache e w)
unfolding dispatch send_all move
dispatch-first p e batch w h n = ground (arith, n, concatenate_events-one e w h)

-- The second event of a move takes the first out of the cache and sends the update.
dispatch-second :
    (p : Str) (e cache : EventInfo) (dest : Str) (w : FileWatcher)
    → ((e.event ≡ in_moved_from) × (dest ≡ cache.path))
      ⊎ ((e.event ≡ in_moved_to) × (dest ≡ e.path))
    → e.cookie ≡ cache.cookie
    → dispatch ((p, e ∷ []) ∷ []) (new_move_cache cache w)
      ≡ ok (send_update (moved_to_path dest) (cancel cache (new_move_cache cache w)))
unfolding dispatch send_all move new_move_cache
dispatch-second p e cache dest w (inl (h, d)) c = ground (
  arith,
  h,
  d,
  c,
  concatenate_events-one e (new_move_cache cache w) (inl h),
  lookup-insert e.cookie cache.cookie cache w.move_caches,
  nat_beq_iff cache.cookie e.cookie,
)
dispatch-second p e cache dest w (inr (h, d)) c = ground (
  arith,
  h,
  d,
  c,
  concatenate_events-one e (new_move_cache cache w) (inr h),
  lookup-insert e.cookie cache.cookie cache w.move_caches,
  nat_beq_iff cache.cookie e.cookie,
)

-- A batch that sends one update and leaves no cached event with the cookie.
unfoldable pub Sends : List (Str × List EventInfo) → FileUpdate → ℕ → FileWatcher → Type 0
Sends batch u cookie w =
    (w1 : FileWatcher) × (dispatch batch w ≡ ok w1)
    × (w1.updates ≡ w.updates ++ (u ∷ []))
    × (lookup cookie w1.move_caches ≡ none)

cancel-lookup : (e : EventInfo) (w : FileWatcher) → lookup e.cookie (cancel e w).move_caches ≡ none
unfolding cancel
cancel-lookup e w =
    ground (arith, lookup-erase e.cookie e.cookie w.move_caches, nat_beq_iff e.cookie e.cookie)

-- The two events of a move, in two entries of a batch, send one MOVE to the new path in either
-- order, if no event with their cookie is cached before, and leave none in the cache.
pub dispatch-move :
    (p q : Str) (f t : EventInfo) (w : FileWatcher)
    → f.event ≡ in_moved_from
    → t.event ≡ in_moved_to
    → t.cookie ≡ f.cookie
    → lookup f.cookie w.move_caches ≡ none
    → Sends ((p, f ∷ []) ∷ (q, t ∷ []) ∷ []) (moved_to_path t.path) f.cookie w
      × Sends ((q, t ∷ []) ∷ (p, f ∷ []) ∷ []) (moved_to_path t.path) f.cookie w
unfolding Sends send_update new_move_cache cancel
dispatch-move p q f t w hf ht c n = (
  (
    send_update (moved_to_path t.path) (cancel f (new_move_cache f w)),
    dispatch-first p f ((q, t ∷ []) ∷ []) w (inl hf) n
        ∙ dispatch-second q t f t.path w (inr (ht, refl)) c,
    refl,
    cancel-lookup f (new_move_cache f w),
  ),
  (
    send_update (moved_to_path t.path) (cancel t (new_move_cache t w)),
    dispatch-first q t ((p, f ∷ []) ∷ []) w (inr ht) (ground (arith, n, c))
        ∙ dispatch-second p f t t.path w (inl (hf, refl)) (sym c),
    refl,
    ground (arith, c, cancel-lookup t (new_move_cache t w)),
  ),
)

-- What a lone event of a move stands for.
unfoldable pub lone_update : EventInfo → FileUpdate
lone_update e = elim e.event [
  | in_moved_from ↦ record { event = file_event_delete; path = e.path }
  | _ ↦ record { event = file_event_modify; path = e.path }
]

incomplete_lem :
    (e : EventInfo) (w : FileWatcher)
    → (e.event ≡ in_moved_from) ⊎ (e.event ≡ in_moved_to)
    → incomplete e w ≡ ok (cancel e (send_update (lone_update e) w))
unfolding incomplete lone_update send_update cancel
incomplete_lem e w (inl h) = ground (arith, h)
incomplete_lem e w (inr h) = ground (arith, h)

-- An event of a move whose counterpart does not come sends nothing in its batch, and when the timer
-- runs out it sends a DELETE of its path if the file was moved away and a MODIFY if it was moved in.
pub expire-lone :
    (p : Str) (e : EventInfo) (w : FileWatcher)
    → (e.event ≡ in_moved_from) ⊎ (e.event ≡ in_moved_to)
    → lookup e.cookie w.move_caches ≡ none
    → (w1 w2 : FileWatcher) × (dispatch ((p, e ∷ []) ∷ []) w ≡ ok w1)
      × (w1.updates ≡ w.updates)
      × (expire e.cookie w1 ≡ ok w2)
      × (w2.updates ≡ w.updates ++ (lone_update e ∷ []))
      × (lookup e.cookie w2.move_caches ≡ none)
unfolding expire dispatch new_move_cache send_update cancel
expire-lone p e w h n = (
  new_move_cache e w,
  cancel e (send_update (lone_update e) (new_move_cache e w)),
  dispatch-first p e [] w h n,
  refl,
  ground (
    arith,
    incomplete_lem e (new_move_cache e w) h,
    lookup-insert e.cookie e.cookie e w.move_caches,
    nat_beq_iff e.cookie e.cookie,
  ),
  refl,
  cancel-lookup e (send_update (lone_update e) (new_move_cache e w)),
)

-- ===== src/Watch/Handled.antt =====
-- pkg/storage/watch/storage.go over a GenericMappedRawStorage: what one update does to the mapping of a
-- key and to the events.
use libgitops.Prelude.{
  ◌≡◌, refl, sym, ap, subst, ◌∙◌, some, List, [], ◌∷◌, ◌++◌, ◌⊎◌, inl, inr, arith, append-nil,
  Bool-cases, Option-cases,
}
use libgitops.Prelude.Text.{Str}
use libgitops.Prelude.Dict.{lookup-erase}
use libgitops.Prelude.Outcome.{Outcome-cases, bind-ok, ok, err, panic}
use libgitops.Key.{ObjectKey, key_eq}
use libgitops.Runtime.{Object, IdentifierFactory}
use libgitops.Serializer.{Serializer}
use libgitops.Raw.Mapped
use libgitops.Raw.Mapped.{MappedRawStorage, mapped_raw}
use libgitops.Watcher.{
  FileUpdate, FileEvent, file_event_none, file_event_modify, file_event_delete, file_event_move,
}
use libgitops.Watch.{
  WatchStorage, Update, ObjectEvent, object_event_none, object_event_create, object_event_modify,
  object_event_delete, add_mapping, remove_mapping, send_event, send_unless_none, read_object,
  deleted_object, handle_delete, handle_write, handle_object, handle_update,
}
use libgitops.Watch.Laws.{mapped_setup, Known, deletion, add-Known, add_mapping_lem}

module _ (ser : Serializer) (factories : List IdentifierFactory) where
  module _ (k : ObjectKey) (sent : List Update) where
    -- More events are sent, and the key is still known, or its deletion is the last one.
    unfoldable pub Handled : WatchStorage MappedRawStorage → WatchStorage MappedRawStorage → Type 0
    Handled ws ws1 =
        ((xs : List Update) × (ws1.events ≡ some (sent ++ xs)))
        × (Known ser factories k ws
            → Known ser factories k ws1
              ⊎ (ws1.events ≡ some (sent ++ (deletion ser factories k ∷ []))))

    same-Handled : (ws : WatchStorage MappedRawStorage) → ws.events ≡ some sent → Handled ws ws
    unfolding Handled
    same-Handled ws h = (([], h ∙ ap some (sym (append-nil sent))), λ known. inl known)

    send-Handled :
        (event : ObjectEvent) (obj : Object) (ws ws0 : WatchStorage MappedRawStorage)
        → ws.events ≡ some sent
        → (Known ser factories k ws0 → Known ser factories k ws)
        → Handled ws0 (send_event (mapped_setup ser factories) event obj ws)
    unfolding Handled send_event
    send-Handled event obj ws ws0 h keeps = (
      (record { event = event; partial_object = obj } ∷ [], ground (arith, h)),
      λ known. let (p, found) = keeps known in inl (p, ground (arith, h, found)),
    )

    send_unless_none-Handled :
        (event : ObjectEvent) (obj : Object) (ws : WatchStorage MappedRawStorage)
        → ws.events ≡ some sent
        → Handled ws (send_unless_none (mapped_setup ser factories) event obj ws)
    unfolding send_unless_none
    send_unless_none-Handled object_event_none obj ws h = same-Handled ws h
    send_unless_none-Handled object_event_create obj ws h = send-Handled _ obj ws ws h (λ x. x)
    send_unless_none-Handled object_event_modify obj ws h = send-Handled _ obj ws ws h (λ x. x)
    send_unless_none-Handled object_event_delete obj ws h = send-Handled _ obj ws ws h (λ x. x)

    deleted-Handled :
        (key : ObjectKey) (ws : WatchStorage MappedRawStorage)
        → ws.events ≡ some sent
        → Handled ws (
            send_event
              (mapped_setup ser factories)
              object_event_delete
              (deleted_object key)
              (remove_mapping (mapped_setup ser factories) key ws))
    unfolding Handled send_event remove_mapping Mapped.remove_mapping
    deleted-Handled key ws h = (
      (deletion ser factories key ∷ [], ground (arith, h)),
      λ known.
          let found = lookup-erase (some k) (some key) ws.world.file_mappings in
          elim (Bool-cases (key_eq.same (some key) (some k))) [
            | inl e ↦
                let one : some key ≡ some k = (key_eq.same_iff (some key) (some k)).0 e in
                inr (ground (arith, h, one))
            | inr e ↦ inl (known.0, ground (arith, h, e, found, known.1))
          ],
    )

    handle_delete-Handled :
        (path : Str) (ws ws1 : WatchStorage MappedRawStorage)
        → ws.events ≡ some sent
        → handle_delete (mapped_setup ser factories) path ws ≡ ok ws1
        → Handled ws ws1
    unfolding handle_delete
    handle_delete-Handled path ws ws1 h d =
        elim (Outcome-cases ((mapped_setup ser factories).storage.raw.get_key ws.world path)) [
          | inr (inl (e, g)) ↦
              let same : ws ≡ ws1 = ground (arith, g, d) in
              subst (Handled ws) same (same-Handled ws h)
          | inr (inr g) ↦ absurd (ground (arith, g, d))
          | inl (found, g) ↦ elim (Option-cases found) [
            | inl nil ↦ absurd (ground (arith, g, nil, d))
            | inr (key, f) ↦
                let after =
                  send_event (mapped_setup ser factories) object_event_delete (deleted_object key)
                    (remove_mapping (mapped_setup ser factories) key ws) in
                let same : after ≡ ws1 = ground (arith, g, f, d) in
                subst (Handled ws) same (deleted-Handled key ws h)
          ]
        ]

    handle_write-Handled :
        (event : ObjectEvent) (path : Str) (obj : Object) (ws ws1 : WatchStorage MappedRawStorage)
        → ws.events ≡ some sent
        → handle_write (mapped_setup ser factories) event path obj ws ≡ ok ws1
        → Handled ws ws1
    unfolding handle_write
    handle_write-Handled event path obj ws ws1 h d =
        elim (Outcome-cases ((mapped_setup ser factories).storage.raw.get_key ws.world path)) [
          | inl (found, g) ↦
              let same : send_unless_none (mapped_setup ser factories) event obj ws ≡ ws1 =
                ground (arith, g, d) in
              subst (Handled ws) same (send_unless_none-Handled event obj ws h)
          | inr (inr g) ↦ absurd (ground (arith, g, d))
          | inr (inl (e, g)) ↦
              let (ws2, added, sending) =
                bind-ok (add_mapping (mapped_setup ser factories) obj path ws)
                  (λ ws2. ok (send_event (mapped_setup ser factories) object_event_create obj ws2))
                  ws1 (ground (arith, g, d)) in
              let same : send_event (mapped_setup ser factories) object_event_create obj ws2 ≡ ws1 =
                ground (arith, sending) in
              let (key, made) = add_mapping_lem ser factories obj path ws ws2 added in
              subst (Handled ws) same (
                send-Handled object_event_create obj ws2 ws (ap (λ x. x.events) made ∙ h) (λ known.
                  subst (Known ser factories k) (sym made)
                    (add-Known ser factories k key path ws known)))
        ]

    move-Handled :
        (path : Str) (obj : Object) (ws ws1 : WatchStorage MappedRawStorage)
        → ws.events ≡ some sent
        → add_mapping (mapped_setup ser factories) obj path ws ≡ ok ws1
        → Handled ws ws1
    unfolding Handled
    move-Handled path obj ws ws1 h added =
        let (key, made) = add_mapping_lem ser factories obj path ws ws1 added in
        (
          ([], ap (λ x. x.events) made ∙ h ∙ ap some (sym (append-nil sent))),
          λ known. inl (
              subst (Known ser factories k) (sym made)
                (add-Known ser factories k key path ws known)),
        )

    handle_object-Handled :
        (u : FileUpdate) (obj : Object) (ws ws1 : WatchStorage MappedRawStorage)
        → ws.events ≡ some sent
        → handle_object (mapped_setup ser factories) u obj ws ≡ ok ws1
        → Handled ws ws1
    unfolding handle_object
    handle_object-Handled u obj ws ws1 h d = by_event u.event refl
      where
        by_event : (v : FileEvent) → u.event ≡ v → Handled ws ws1
        by_event file_event_none e =
            handle_write-Handled object_event_none u.path obj ws ws1 h (ground (arith, e, d))
        by_event file_event_modify e =
            handle_write-Handled object_event_modify u.path obj ws ws1 h (ground (arith, e, d))
        by_event file_event_move e = move-Handled u.path obj ws ws1 h (ground (arith, e, d))
        by_event file_event_delete e =
            let same : ws ≡ ws1 = ground (arith, e, d) in
            subst (Handled ws) same (same-Handled ws h)

    read-Handled :
        (u : FileUpdate) (ws ws1 : WatchStorage MappedRawStorage)
        → ws.events ≡ some sent
        → (elim (read_object (mapped_setup ser factories) u.path ws) [
          | err e ↦ ok ws
          | panic ↦ panic
          | ok obj ↦ handle_object (mapped_setup ser factories) u obj ws
        ])
          ≡ ok ws1
        → Handled ws ws1
    read-Handled u ws ws1 h d =
        elim (Outcome-cases (read_object (mapped_setup ser factories) u.path ws)) [
          | inl (obj, r) ↦ handle_object-Handled u obj ws ws1 h (ground (arith, r, d))
          | inr (inl (e, r)) ↦
              let same : ws ≡ ws1 = ground (arith, r, d) in
              subst (Handled ws) same (same-Handled ws h)
          | inr (inr r) ↦ absurd (ground (arith, r, d))
        ]

    pub handle_update-Handled :
        (u : FileUpdate) (ws ws1 : WatchStorage MappedRawStorage)
        → ws.events ≡ some sent
        → handle_update (mapped_setup ser factories) u ws ≡ ok ws1
        → Handled ws ws1
    unfolding handle_update
    handle_update-Handled u ws ws1 h d = by_event u.event refl
      where
        by_event : (v : FileEvent) → u.event ≡ v → Handled ws ws1
        by_event file_event_delete e = handle_delete-Handled u.path ws ws1 h (ground (arith, e, d))
        by_event file_event_none e = read-Handled u ws ws1 h (ground (arith, e, d))
        by_event file_event_modify e = read-Handled u ws ws1 h (ground (arith, e, d))
        by_event file_event_move e = read-Handled u ws ws1 h (ground (arith, e, d))

-- ===== src/Watch/Laws.antt =====
-- pkg/storage/watch/storage.go over a GenericMappedRawStorage: the keys that have a mapping.
use libgitops.Prelude.{◌≡◌, Option, none, some, List, inl, inr, arith, Bool-cases}
use libgitops.Prelude.Text.{Str}
use libgitops.Prelude.Dict.{lookup, lookup-insert}
use libgitops.Prelude.Outcome.{Outcome-cases, ok}
use libgitops.Key.{ObjectKey, key_eq}
use libgitops.Runtime.{Object, IdentifierFactory}
use libgitops.Serializer.{Serializer}
use libgitops.Raw.Mapped
use libgitops.Raw.Mapped.{MappedRawStorage, mapped_raw}
use libgitops.Storage.{new_generic_storage, object_key_for}
use libgitops.Watch.{Setup, WatchStorage, Update, object_event_delete, add_mapping, deleted_object}

module _ (ser : Serializer) (factories : List IdentifierFactory) where
  -- `NewGenericWatchStorage` of a generic storage over a mapped one.
  abbrev pub mapped_setup : Setup MappedRawStorage
  mapped_setup = record {
    storage = new_generic_storage mapped_raw ser factories;
    mapped = some (record { add = Mapped.add_mapping; remove = Mapped.remove_mapping });
    disk = λ r. r.fs;
  }

  -- The key has a mapping.
  abbrev pub Known : ObjectKey → WatchStorage MappedRawStorage → Type 0
  Known k ws = (p : Str) × (lookup (some k) ws.world.file_mappings ≡ some p)

  abbrev pub deletion : ObjectKey → Update
  deletion k = record { event = object_event_delete; partial_object = deleted_object k }

  pub add-Known :
      (k : ObjectKey) (key : Option ObjectKey) (file : Str) (ws : WatchStorage MappedRawStorage)
      → Known k ws
      → Known k (record ws { world = Mapped.add_mapping key file ws.world })
  unfolding Mapped.add_mapping
  add-Known k key file ws (p, h) =
      let found = lookup-insert (some k) key file ws.world.file_mappings in
      elim (Bool-cases (key_eq.same key (some k))) [
        | inl e ↦ (file, ground (arith, found, e))
        | inr e ↦ (p, ground (arith, found, e, h))
      ]

  pub add_mapping_lem :
      (obj : Object) (file : Str) (ws ws1 : WatchStorage MappedRawStorage)
      → add_mapping mapped_setup obj file ws ≡ ok ws1
      → (key : Option ObjectKey) × (ws1
          ≡ record ws { world = Mapped.add_mapping key file ws.world })
  unfolding add_mapping
  add_mapping_lem obj file ws ws1 h =
      elim (Outcome-cases (object_key_for mapped_setup.storage obj)) [
        | inl (key, k) ↦ (some key, ground (arith, k, h))
        | inr (inl (e, k)) ↦ (none, ground (arith, k, h))
        | inr (inr k) ↦ absurd (ground (arith, k, h))
      ]

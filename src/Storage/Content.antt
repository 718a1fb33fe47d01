-- ===== src/Storage/Content.antt =====
-- The two raw storages meet what `GenericStorage` relies on, and what it cannot do over a
-- `GenericMappedRawStorage`.
use libgitops.Prelude.{ℕ, false, ◌≡◌, ◌≢◌, List, [], arith, refl, none, some, inl, inr}
use libgitops.Prelude.Text.{Str}
use libgitops.Prelude.Dict.{lookup}
use libgitops.Prelude.Outcome.{Outcome-cases, ok, err, not_tracked, not_found}
use libgitops.Key.{ObjectKey, key_eq}
use libgitops.Runtime.{Object, IdentifierFactory}
use libgitops.Raw.Generic.{GenericRawStorage, generic_raw}
use libgitops.Raw.Generic.Guard.{generic_read-write}
use libgitops.Raw.Mapped.{MappedRawStorage, mapped_raw, content_type}
use libgitops.Raw.Mapped.Laws.{read-write, untracked}
use libgitops.Serializer.{Serializer, with_meta}
use libgitops.Storage.{
  GenericStorage, new_generic_storage, object_key_for, content_type_for, create, update, stamp,
  write,
}
use libgitops.Storage.Laws.{RawLaws, create_or_update}

pub generic_raw-RawLaws : (r : GenericRawStorage) → RawLaws (generic_raw r)
unfolding generic_raw
generic_raw-RawLaws r = record {
  read_written =
      λ w w' key content h. let l = generic_read-write r w w' key content h in (l.1, l.2);
  same_content_type = λ w w' key content h. refl;
}

mapped_content_type :
    (r r' : MappedRawStorage) (key : ObjectKey)
    → r'.file_mappings ≡ r.file_mappings
    → content_type r' key ≡ content_type r key
unfolding content_type
mapped_content_type r r' key h = rw h

pub mapped_raw-RawLaws : RawLaws mapped_raw
unfolding mapped_raw
mapped_raw-RawLaws = record {
  read_written = λ w w' key content h. let l = read-write w w' key content h in (l.0, l.1);
  same_content_type =
      λ w w' key content h. mapped_content_type w w' key (read-write w w' key content h).2;
}

module _ (ser : Serializer) (identifiers : List IdentifierFactory) where
  abbrev mapped_storage : GenericStorage MappedRawStorage
  mapped_storage = new_generic_storage mapped_raw ser identifiers

  write_untracked :
      (now : ℕ) (w : MappedRawStorage) (obj : Object) (key : ObjectKey)
      → lookup (some key) w.file_mappings ≡ none
      → ((write mapped_storage now w key obj).0 ≡ w)
        × ((write mapped_storage now w key obj).2 ≢ ok tt)
        × ((content : Str)
            → ser.encode (content_type_for mapped_storage w key) (with_meta (stamp now obj))
              ≡ ok content
            → (write mapped_storage now w key obj).2 ≡ err not_tracked)
  unfolding write mapped_raw new_generic_storage
  write_untracked now w obj key h =
      let u = λ (content : Str). (untracked w key content h).0 in
      elim (Outcome-cases
        (ser.encode (content_type_for mapped_storage w key) (with_meta (stamp now obj)))) [
          | inl (content, e) ↦ (
            ground (arith, e, u content),
            ground (arith, e, u content),
            λ c f. ground (arith, e, u content),
          )
          | inr (inl (o, e)) ↦
              (ground (arith, e), ground (arith, e, u []), λ c f. ground (arith, e, f))
          | inr (inr e) ↦ (ground (arith, e), ground (arith, e), λ c f. ground (arith, e, f))
        ]

  -- Over a GenericMappedRawStorage, an object whose key has no mapping can neither be created nor
  -- updated: the storage stays as it was and the result is no success. If the object can be encoded,
  -- the error of Create is that it is not tracked; the error of Update is that it was not found.
  pub create_untracked :
      (now : ℕ) (w : MappedRawStorage) (obj : Object) (key : ObjectKey)
      → object_key_for mapped_storage obj ≡ ok key
      → lookup (some key) w.file_mappings ≡ none
      → ((create mapped_storage now w obj).0 ≡ w)
        × ((create mapped_storage now w obj).2 ≢ ok tt)
        × ((content : Str)
            → ser.encode (content_type_for mapped_storage w key) (with_meta (stamp now obj))
              ≡ ok content
            → (create mapped_storage now w obj).2 ≡ err not_tracked)
        × (update mapped_storage now w obj ≡ (w, obj, err not_found))
  unfolding mapped_raw new_generic_storage
  create_untracked now w obj key k h =
      let both =
        (create_or_update mapped_storage now w obj key false k (untracked w key [] h).2).1 refl in
      let w' = write_untracked now w obj key h in
      (rw both.0 w'.0, rw both.0 w'.1, λ content e. rw both.0 (w'.2 content e), both.1)

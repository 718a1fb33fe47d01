-- ===== src/Raw/Mapped/Removal.antt =====
-- `Delete`, `List` and `GetKey` of `GenericMappedRawStorage`.
use libgitops.Prelude.{
  Bool, true, false, ◌≡◌, ◌≢◌, refl, Option, none, some, List, [], ◌∷◌, arith, map, keep_if,
  Bool-cases, Option-cases, inl, inr,
}
use libgitops.Prelude.Text.{Str, str_eq_iff}
use libgitops.Prelude.Dict.{
  Dict, keys, lookup, insert, erase, lookup-insert, lookup-erase, NodupKeys,
}
use libgitops.Prelude.Outcome.{Outcome-cases, ok, err, panic, not_tracked, no_mapping_found}
use libgitops.Key.{Gvk, ObjectKey, equals_gvk, key_eq, nilable_beq_iff}
use libgitops.Fs.{Fs, file_exists, remove}
use libgitops.Fs.Laws.{stat-remove, remove-unchanged, file_exists_absent}
use libgitops.Raw.Mapped.{
  MappedRawStorage, real_path, exists, delete, list, get_key, add_mapping, list_keys, key_of_path,
  remove_if,
}

-- After the file was removed if it was found, it is not there.
remove_if-gone :
    (fs : Fs) (p : Str) (found : Bool)
    → file_exists fs p ≡ ok found
    → (remove_if fs p found).1 ≡ ok tt
    → file_exists (remove_if fs p found).0 p ≡ ok false
unfolding remove_if
remove_if-gone fs p true e h =
    file_exists_absent (remove fs p).0 p (ground (arith, stat-remove fs p p h, str_eq_iff p p))
remove_if-gone fs p false e h = e

-- What a successful deletion has done.
record Deleted (r r' : MappedRawStorage) (key : ObjectKey) : Type 0 where
  path : Str
  mapped : lookup (some key) r.file_mappings ≡ some path
  gone : file_exists r'.fs path ≡ ok false
  mappings : r'.file_mappings ≡ erase (some key) r.file_mappings

delete-Deleted :
    (r r' : MappedRawStorage) (key : ObjectKey) → delete r key ≡ (r', ok tt) → Deleted r r' key
unfolding delete
delete-Deleted r r' key h = elim (Option-cases (lookup (some key) r.file_mappings)) [
  | inl e ↦ ground (arith, e)
  | inr (p, e) ↦ elim (Outcome-cases (file_exists r.fs p)) [
    | inl (found, x) ↦ record {
      path = p;
      mapped = e;
      gone = ground (arith, e, x, remove_if-gone r.fs p found);
      mappings = ground (arith, e, x);
    }
    | inr (inl (o, x)) ↦ ground (arith, e, x)
    | inr (inr x) ↦ ground (arith, e, x)
  ]
]

-- A successful deletion has removed the mapping of the key and no other, and no file is left at
-- the path that the key was mapped to.
pub delete-gone :
    (r r' : MappedRawStorage) (key : ObjectKey)
    → delete r key ≡ (r', ok tt)
    → (real_path r' key ≡ err not_tracked)
      × (exists r' key ≡ ok false)
      × ((p : Str) → real_path r key ≡ ok p → file_exists r'.fs p ≡ ok false)
      × ((k : ObjectKey) → k ≢ key → real_path r' k ≡ real_path r k)
unfolding real_path exists
delete-gone r r' key h =
    let d = delete-Deleted r r' key h in
    let erased = λ (k : ObjectKey). lookup-erase (some k) (some key) r.file_mappings in
    (
      ground (arith, d.mappings, erased key, nilable_beq_iff (some key) (some key)),
      ground (arith, d.mappings, erased key, nilable_beq_iff (some key) (some key)),
      λ p at_p. ground (arith, d.mapped, d.gone, at_p),
      λ k differ. ground (arith, d.mappings, erased k, nilable_beq_iff (some key) (some k)),
    )

-- A deletion that does not succeed has changed nothing.
pub delete-unchanged :
    (r : MappedRawStorage) (key : ObjectKey) → (delete r key).1 ≢ ok tt → (delete r key).0 ≡ r
unfolding delete
delete-unchanged r key h = elim (Option-cases (lookup (some key) r.file_mappings)) [
  | inl e ↦ ground (arith, e)
  | inr (p, e) ↦ elim (Outcome-cases (file_exists r.fs p)) [
    | inl (true, x) ↦ ground (arith, e, x, remove-unchanged r.fs p)
    | inl (false, x) ↦ ground (arith, e, x)
    | inr (inl (o, x)) ↦ ground (arith, e, x)
    | inr (inr x) ↦ ground (arith, e, x)
  ]
]

-- The key is of the wanted kind and group, in any version.
abbrev pub of_kind : Gvk → Option ObjectKey → Bool
of_kind kind none = false
of_kind kind (some key) = equals_gvk key.kind_key kind false

-- The table has no nil key.
abbrev pub NoNil : Dict (Option ObjectKey) Str → Type 0
NoNil m = lookup none m ≡ none

list_keys-keep_if :
    (kind : Gvk) (m : Dict (Option ObjectKey) Str)
    → NoNil m
    → (found : List ObjectKey) × (list_keys kind m ≡ ok found)
      × (map some found ≡ keep_if (of_kind kind) (keys m))
unfolding list_keys keys lookup
list_keys-keep_if kind [] h = ([], refl, refl)
list_keys-keep_if kind ((none, p) ∷ m) h = ground (arith, nilable_beq_iff none none)
list_keys-keep_if kind ((some k, p) ∷ m) h =
    let (rest, listed, same) =
      list_keys-keep_if kind m (ground (arith, nilable_beq_iff (some k) none)) in
    elim (Bool-cases (equals_gvk k.kind_key kind false)) [
      | inl e ↦ (k ∷ rest, rw (e, listed), rw (e, same))
      | inr e ↦ (rest, rw (e, listed), rw (e, same))
    ]

list_keys-nil :
    (kind : Gvk) (m : Dict (Option ObjectKey) Str) (p : Str)
    → lookup none m ≡ some p
    → list_keys kind m ≡ panic
unfolding list_keys lookup
list_keys-nil kind [] p h = ground arith
list_keys-nil kind ((none, q) ∷ m) p h = refl
list_keys-nil kind ((some k, q) ∷ m) p h =
    ground (arith, list_keys-nil kind m p, nilable_beq_iff (some k) none)

-- `List` returns the keys of the wanted kind and group in any version, if the table has no nil key,
-- and panics otherwise.
pub list_of_mappings :
    (r : MappedRawStorage) (kind : Gvk)
    → (NoNil r.file_mappings
        → (found : List ObjectKey) × (list r kind ≡ ok found)
          × (map some found ≡ keep_if (of_kind kind) (keys r.file_mappings)))
      × ((p : Str) → list (add_mapping none p r) kind ≡ panic)
unfolding list add_mapping
list_of_mappings r kind = (
  list_keys-keep_if kind r.file_mappings,
  λ p.
      list_keys-nil kind (insert none p r.file_mappings) p
        (ground (arith, lookup-insert none none p r.file_mappings, nilable_beq_iff none none)),
)

key_of_path_sound :
    (p : Str) (m : Dict (Option ObjectKey) Str) (key : Option ObjectKey)
    → NodupKeys m
    → key_of_path p m ≡ ok key
    → lookup key m ≡ some p
unfolding key_of_path lookup
key_of_path_sound p [] key u h = ground arith
key_of_path_sound p ((k, q) ∷ m) key u h =
    ground (arith, key_of_path_sound p m key u.1, str_eq_iff q p, nilable_beq_iff k key)

key_of_path_complete :
    (p : Str) (m : Dict (Option ObjectKey) Str) (key : Option ObjectKey)
    → lookup key m ≡ some p
    → key_of_path p m ≢ err no_mapping_found
unfolding key_of_path lookup
key_of_path_complete p [] key h = ground arith
key_of_path_complete p ((k, q) ∷ m) key h =
    ground (arith, key_of_path_complete p m key, str_eq_iff q p)

-- `GetKey` returns a key that is mapped to the path, and fails only if no key is.
pub get_key_lem :
    (r : MappedRawStorage) (p : Str)
    → NodupKeys r.file_mappings
    → ((key : Option ObjectKey) → get_key r p ≡ ok key → lookup key r.file_mappings ≡ some p)
      × ((key : Option ObjectKey)
          → lookup key r.file_mappings ≡ some p
          → get_key r p ≢ err no_mapping_found)
unfolding get_key
get_key_lem r p u = (
  λ key h. key_of_path_sound p r.file_mappings key u h,
  λ key h. key_of_path_complete p r.file_mappings key h,
)

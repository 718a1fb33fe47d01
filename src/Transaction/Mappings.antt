-- ===== src/Transaction/Mappings.antt =====
-- pkg/storage/transaction/git.go: `computeMappings` and `sync`, on what `filepath.Walk` visits.
use libgitops.Prelude.{
  ◌≡◌, false, Option, none, some, List, [], ◌∷◌, arith, if◌then◌else◌, inl, inr, Option-cases,
}
use libgitops.Prelude.Text.{Str, bytes}
use libgitops.Prelude.Dict.{Dict, lookup, insert, keys, lookup-insert}
use libgitops.Prelude.Outcome.{Outcome, Outcome-cases, Done, ok, err, panic, ◌>>=◌}
use libgitops.Key.{ObjectKey, key_eq}
use libgitops.Fs.{Fs, read_file}
use libgitops.Raw.Content.{content_types}
use libgitops.Raw.Mapped.{MappedRawStorage, set_mappings}
use libgitops.Storage.{GenericStorage, object_key_for}
use libgitops.Storage.Partial.{decode_partial_objects, first_object}
use libgitops.Watcher.Valid.{Visit, walk_directory_for_files}

abbrev pub exclude_dirs : List Str
exclude_dirs = bytes ".git" ∷ []

module _ (s : GenericStorage MappedRawStorage) (fs : Fs) where
  -- The body of the loop over the files, up to the key.
  unfoldable pub key_of_file : Str → Outcome ObjectKey
  key_of_file file = do
    content ← read_file fs file
    part_objs ← decode_partial_objects s.serializer content false none
    o ← first_object part_objs
    object_key_for s o

  -- The loop over the files. One that has no key is skipped.
  unfoldable pub add_files :
      List Str → Dict (Option ObjectKey) Str → Outcome (Dict (Option ObjectKey) Str)
  add_files [] m = ok m
  add_files (file ∷ files) m = elim (key_of_file file) [
    | ok key ↦ add_files files (insert (some key) file m)
    | err e ↦ add_files files m
    | panic ↦ panic
  ]

  -- `computeMappings`
  unfoldable pub compute_mappings : List Visit → Outcome (Dict (Option ObjectKey) Str)
  compute_mappings visited =
      let (files, error) = walk_directory_for_files visited (keys content_types) exclude_dirs in
      elim error [ some e ↦ err e | none ↦ add_files files [] ]

  -- The last of the files whose object has the key.
  unfoldable pub last_file : ObjectKey → List Str → Option Str
  last_file key [] = none
  last_file key (file ∷ files) =
      let rest = last_file key files in
      elim rest [
        | some later ↦ some later
        | none ↦ elim (key_of_file file) [
          | ok k ↦ if key_eq.same (some k) (some key) then some file else none
          | _ ↦ none
        ]
      ]

  or_else : Option Str → Option Str → Option Str
  or_else (some p) q = some p
  or_else none q = q

  add_files-lookup :
      (key : ObjectKey) (files : List Str) (m m1 : Dict (Option ObjectKey) Str)
      → add_files files m ≡ ok m1
      → lookup (some key) m1 ≡ or_else (last_file key files) (lookup (some key) m)
  unfolding add_files last_file or_else
  add_files-lookup key [] m m1 h = ground (arith, h)
  add_files-lookup key (file ∷ files) m m1 h = elim (Outcome-cases (key_of_file file)) [
    | inl (k, e) ↦
        let later = add_files-lookup key files (insert (some k) file m) m1 (ground (arith, e, h)) in
        ground (arith, e, later, lookup-insert (some key) (some k) file m)
    | inr (inl (x, e)) ↦
        let later = add_files-lookup key files m m1 (ground (arith, e, h)) in
        ground (arith, e, later)
    | inr (inr e) ↦ absurd (ground (arith, e, h))
  ]

-- `sync`, with the disk of the storage.
unfoldable pub sync :
    GenericStorage MappedRawStorage → List Visit → MappedRawStorage → MappedRawStorage × Done
sync s visited r = elim (compute_mappings s r.fs visited) [
  | ok m ↦ (set_mappings m r, ok tt)
  | err e ↦ (r, err e)
  | panic ↦ (r, panic)
]

module _ (s : GenericStorage MappedRawStorage) (visited : List Visit) where
  -- The files that a sync finds.
  abbrev pub found_files : List Str
  found_files = (walk_directory_for_files visited (keys content_types) exclude_dirs).0

  compute_mappings_lem :
      (fs : Fs) (m : Dict (Option ObjectKey) Str)
      → compute_mappings s fs visited ≡ ok m
      → add_files s fs found_files [] ≡ ok m
  unfolding compute_mappings
  compute_mappings_lem fs m h =
      elim (Option-cases (walk_directory_for_files visited (keys content_types) exclude_dirs).1) [
        | inl e ↦ ground (arith, e, h)
        | inr (x, e) ↦ absurd (ground (arith, e, h))
      ]

  -- After a successful sync, a key is mapped exactly to the last file that was found whose object
  -- has that key, whatever the mappings were before.
  pub sync-last_file :
      (r r1 : MappedRawStorage) (key : ObjectKey)
      → sync s visited r ≡ (r1, ok tt)
      → lookup (some key) r1.file_mappings ≡ last_file s r.fs key found_files
  unfolding sync set_mappings lookup or_else
  sync-last_file r r1 key h = elim (Outcome-cases (compute_mappings s r.fs visited)) [
    | inl (m, e) ↦
        let added = add_files-lookup s r.fs key found_files [] m (compute_mappings_lem r.fs m e) in
        ground (arith, e, h, added)
    | inr (inl (x, e)) ↦ absurd (ground (arith, e, h))
    | inr (inr e) ↦ absurd (ground (arith, e, h))
  ]

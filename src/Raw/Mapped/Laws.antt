-- ===== src/Raw/Mapped/Laws.antt =====
-- What the operations of `GenericMappedRawStorage` promise to one another.
use libgitops.Prelude.{true, false, ◌≡◌, ◌≢◌, none, some, arith, Option-cases, inl, inr}
use libgitops.Prelude.Text.{Str}
use libgitops.Prelude.Dict.{lookup}
use libgitops.Prelude.Outcome.{ok, err, not_tracked}
use libgitops.Key.{ObjectKey, key_eq}
use libgitops.Fs.{write_file}
use libgitops.Fs.Laws.{
  read_file-write_file, file_exists-write_file, stat-write_file_ne, write_file-unchanged,
  read_file-stat,
}
use libgitops.Raw.Mapped.{MappedRawStorage, real_path, read, exists, write, delete}

-- Writing a key without a mapping is an error that changes nothing, reading it is the same error,
-- and it does not exist.
pub untracked :
    (r : MappedRawStorage) (key : ObjectKey) (content : Str)
    → lookup (some key) r.file_mappings ≡ none
    → (write r key content ≡ (r, err not_tracked))
      × (read r key ≡ err not_tracked)
      × (exists r key ≡ ok false)
      × (delete r key ≡ (r, err not_tracked))
unfolding write read exists delete
untracked r key content h = ground (arith, h)

-- What a successful write has done.
record Written (r r' : MappedRawStorage) (key : ObjectKey) (content : Str) : Type 0 where
  path : Str
  mapped : lookup (some key) r.file_mappings ≡ some path
  wrote : write_file r.fs path content ≡ (r'.fs, ok tt)
  same_mappings : r'.file_mappings ≡ r.file_mappings

write-Written :
    (r r' : MappedRawStorage) (key : ObjectKey) (content : Str)
    → write r key content ≡ (r', ok tt)
    → Written r r' key content
unfolding write
write-Written r r' key content h = elim (Option-cases (lookup (some key) r.file_mappings)) [
  | inl e ↦ ground (arith, e)
  | inr (p, e) ↦ record {
    path = p;
    mapped = e;
    wrote = ground (arith, e);
    same_mappings = ground (arith, e);
  }
]

read-write_ne :
    (r r' : MappedRawStorage) (key k : ObjectKey) (content : Str)
    → write r key content ≡ (r', ok tt)
    → real_path r k ≢ real_path r key
    → read r' k ≡ read r k
unfolding read
read-write_ne r r' key k content h differ =
    let w = write-Written r r' key content h in
    elim (Option-cases (lookup (some k) r.file_mappings)) [
      | inl e ↦ ground (arith, e, w.same_mappings)
      | inr (p, e) ↦ ground (
        arith,
        e,
        w.mapped,
        w.wrote,
        w.same_mappings,
        read_file-stat r'.fs r.fs p p,
        stat-write_file_ne r.fs w.path p content,
      )
    ]

-- A successful write is read back, its key exists, the mappings are as they were, and so is the
-- content of every key that is mapped to another path.
pub read-write :
    (r r' : MappedRawStorage) (key : ObjectKey) (content : Str)
    → write r key content ≡ (r', ok tt)
    → (read r' key ≡ ok content)
      × (exists r' key ≡ ok true)
      × (r'.file_mappings ≡ r.file_mappings)
      × ((k : ObjectKey) → real_path r k ≢ real_path r key → read r' k ≡ read r k)
unfolding write read exists
read-write r r' key content h =
    let w = write-Written r r' key content h in
    (
      ground (
        arith,
        w.mapped,
        w.same_mappings,
        read_file-write_file r.fs r'.fs w.path content w.wrote,
      ),
      ground (
        arith,
        w.mapped,
        w.same_mappings,
        file_exists-write_file r.fs r'.fs w.path content w.wrote,
      ),
      w.same_mappings,
      λ k. read-write_ne r r' key k content h,
    )

-- A write or a deletion that does not succeed has changed nothing.
pub write-unchanged :
    (r : MappedRawStorage) (key : ObjectKey) (content : Str)
    → (write r key content).1 ≢ ok tt
    → (write r key content).0 ≡ r
unfolding write
write-unchanged r key content h = elim (Option-cases (lookup (some key) r.file_mappings)) [
  | inl e ↦ ground (arith, e)
  | inr (p, e) ↦ ground (arith, e, write_file-unchanged r.fs p content)
]

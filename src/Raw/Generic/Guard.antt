-- ===== src/Raw/Generic/Guard.antt =====
-- The group and version check of `GenericRawStorage`, and its writes.
use libgitops.Prelude.{true, false, ◌≡◌, arith, inl, inr, ◌⊎◌}
use libgitops.Prelude.Text.{Str, str_eq_iff}
use libgitops.Prelude.Outcome.{Outcome, Outcome-cases, ok, err, panic, unsupported_group_version}
use libgitops.Key.{Gvk, ObjectKey}
use libgitops.Fs.{Fs, write_file}
use libgitops.Fs.Laws.{read_file-write_file, file_exists-write_file}
use libgitops.Raw.Generic.{
  GenericRawStorage, key_path, validate_group_version, exists, read, write, delete, list, checksum,
  make_parent, write_content,
}

-- The storage supports this group and version.
abbrev pub Supports : GenericRawStorage → Gvk → Type 0
Supports r kind = (r.group ≡ kind.group) × (r.version ≡ kind.version)

validate-cases :
    (r : GenericRawStorage) (kind : Gvk)
    → (Supports r kind → validate_group_version r kind ≡ ok tt)
      × (¬ Supports r kind → validate_group_version r kind ≡ err unsupported_group_version)
unfolding validate_group_version
validate-cases r kind =
    ground (arith, str_eq_iff r.group kind.group, str_eq_iff r.version kind.version)

-- For a key of another group or version, every operation but `Exists` fails with the same error,
-- `Exists` answers no, and nothing is changed.
pub unsupported :
    (r : GenericRawStorage) (fs : Fs) (key : ObjectKey) (content : Str)
    → ¬ Supports r key.kind_key
    → (read r fs key ≡ err unsupported_group_version)
      × (exists r fs key ≡ ok false)
      × (write r fs key content ≡ (fs, err unsupported_group_version))
      × (delete r fs key ≡ (fs, err unsupported_group_version))
      × (list r fs key.kind_key ≡ err unsupported_group_version)
      × (checksum r fs key ≡ err unsupported_group_version)
unfolding read exists write delete list checksum
unsupported r fs key content h =
    let v = (validate-cases r key.kind_key).1 h in
    (rw v, rw (v, exists), rw (v, write), rw (v, delete), rw v, rw v)

validate-Supports :
    (r : GenericRawStorage) (kind : Gvk)
    → Supports r kind ⊎ (validate_group_version r kind ≡ err unsupported_group_version)
unfolding validate_group_version
validate-Supports r kind =
    ground (arith, str_eq_iff r.group kind.group, str_eq_iff r.version kind.version)

-- What a successful write has done: the file was written once its directory was there.
record Written (r : GenericRawStorage) (fs fs' : Fs) (key : ObjectKey) (content : Str)
    : Type 0 where
  supported : Supports r key.kind_key
  between : Fs
  wrote : write_file between (key_path r key) content ≡ (fs', ok tt)

write_content-ok :
    (r : GenericRawStorage) (key : ObjectKey) (content : Str) (made : Fs × Outcome (Unit {0}))
    (fs' : Fs)
    → write_content r key content made ≡ (fs', ok tt)
    → (between : Fs) × (write_file between (key_path r key) content ≡ (fs', ok tt))
unfolding write_content
write_content-ok r key content (fs, ok u) fs' h = (fs, h)
write_content-ok r key content (fs, err e) fs' h = ground (arith, h)
write_content-ok r key content (fs, panic) fs' h = ground (arith, h)

write-Written :
    (r : GenericRawStorage) (fs fs' : Fs) (key : ObjectKey) (content : Str)
    → write r fs key content ≡ (fs', ok tt)
    → Written r fs fs' key content
unfolding write
write-Written r fs fs' key content h = elim (validate-Supports r key.kind_key) [
  | inr v ↦ ground (arith, v)
  | inl s ↦
      let v = (validate-cases r key.kind_key).0 s in
      elim (Outcome-cases (exists r fs key)) [
        | inl (found, x) ↦
            let (between, wrote) =
              write_content-ok r key content (make_parent r fs key found) fs'
                (ground (arith, v, x)) in
            record { supported = s; between = between; wrote = wrote }
        | inr (inl (e, x)) ↦ ground (arith, v, x)
        | inr (inr x) ↦ ground (arith, v, x)
      ]
]

-- A successful write is for a supported key; it is read back, and the key exists then.
pub generic_read-write :
    (r : GenericRawStorage) (fs fs' : Fs) (key : ObjectKey) (content : Str)
    → write r fs key content ≡ (fs', ok tt)
    → Supports r key.kind_key × (read r fs' key ≡ ok content) × (exists r fs' key ≡ ok true)
unfolding read exists
generic_read-write r fs fs' key content h =
    let w = write-Written r fs fs' key content h in
    let v = (validate-cases r key.kind_key).0 w.supported in
    let there = file_exists-write_file w.between fs' (key_path r key) content w.wrote in
    let found : exists r fs' key ≡ ok true = rw (v, exists) there in
    (
      w.supported,
      rw (v, found) (read_file-write_file w.between fs' (key_path r key) content w.wrote),
      found,
    )

-- ===== src/Transaction/Loop.antt =====
-- pkg/storage/transaction/git.go: `NewGitStorage` and `syncLoop`, between the changes that others
-- make to the clone's directory: pulls, transactions, checkouts. The loop holds no lock, so these
-- come at any time; one round reads the directory as it is at one moment.
use libgitops.Prelude.{
  ◌≡◌, refl, ap, sym, ◌∙◌, subst, map, Option, some, List, [], ◌∷◌, ◌++◌, arith, ◌⊎◌, inl, inr,
}
use libgitops.Prelude.Text.{Str}
use libgitops.Prelude.Dict.{Dict, lookup}
use libgitops.Prelude.Outcome.{
  Outcome, Outcome-cases, Done, Error, bind-ok, ok, err, panic, ◌>>=◌, ◌>>◌,
}
use libgitops.Key.{ObjectKey, key_eq}
use libgitops.Fs.{Fs}
use libgitops.Raw.Mapped.{MappedRawStorage, set_mappings, new_generic_mapped_raw_storage}
use libgitops.Storage.{GenericStorage}
use libgitops.Watcher.Valid.{Visit}
use libgitops.Transaction.Mappings.{sync, compute_mappings, last_file, found_files, sync-last_file}

-- The clone's directory: the disk, and what `filepath.Walk` visits.
pub record Checkout : Type 0 where
  pub disk : Fs
  pub visited : List Visit

-- The raw storage of a `GitStorage`, on the directory as it is, and what a walk visits there.
pub record Tracked : Type 0 where
  pub raw : MappedRawStorage
  pub visited : List Visit

-- What comes while the loop runs: the directory becomes another one, or a commit is received.
pub data LoopEvent : Type 0 where
  changed : Checkout → LoopEvent
  commit : Str → LoopEvent

-- One round of `syncLoop`, for which the commit does not count: an error is logged, and the mappings
-- stay.
unfoldable pub sync_round : GenericStorage MappedRawStorage → Str → Tracked → Outcome Tracked
sync_round s hash st =
    let synced = sync s st.visited st.raw in
    let after = record st { raw = synced.0 } in
    elim synced.1 [ ok u ↦ ok after | err e ↦ ok after | panic ↦ panic ]

unfoldable pub change : Checkout → Tracked → Tracked
change c st = record { raw = record st.raw { fs = c.disk }; visited = c.visited }

-- `syncLoop` for the commits so far, with the changes between them.
unfoldable pub sync_loop :
    GenericStorage MappedRawStorage → List LoopEvent → Tracked → Outcome Tracked
unfolding change
sync_loop s [] st = ok st
sync_loop s (changed c ∷ es) st = sync_loop s es (change c st)
sync_loop s (commit hash ∷ es) st = sync_round s hash st >>= sync_loop s es

-- `NewGitStorage`, with the result of `StartCheckoutLoop`, up to the start of `syncLoop`.
unfoldable pub new_git_storage :
    GenericStorage MappedRawStorage → Done → Str → Checkout → Outcome MappedRawStorage
new_git_storage s started dir c = do
  started
  let synced = sync s c.visited (new_generic_mapped_raw_storage dir c.disk) in
      synced.1 >> ok synced.0

sync_loop-append :
    (s : GenericStorage MappedRawStorage) (before after : List LoopEvent) (st : Tracked)
    → sync_loop s (before ++ after) st ≡ (sync_loop s before st >>= sync_loop s after)
unfolding sync_loop
sync_loop-append s [] after st = refl
sync_loop-append s (changed c ∷ before) after st = sync_loop-append s before after (change c st)
sync_loop-append s (commit hash ∷ before) after st = elim (Outcome-cases (sync_round s hash st)) [
  | inl (st1, same) ↦ ground (arith, same, sync_loop-append s before after st1)
  | inr (inl (e, failed)) ↦ ground (arith, failed)
  | inr (inr died) ↦ ground (arith, died)
]

-- The mappings are those of the files that were in the directory, or the directory could not be
-- read, and they are the ones from before.
unfoldable pub Follows :
    GenericStorage MappedRawStorage → Tracked → Dict (Option ObjectKey) Str → Type 0
Follows s st m =
    ((key : ObjectKey) → lookup (some key) m ≡ last_file s st.raw.fs key (found_files s st.visited))
    ⊎ ((e : Error) × ((sync s st.visited st.raw).1 ≡ err e) × (m ≡ st.raw.file_mappings))

sync_ok :
    (s : GenericStorage MappedRawStorage) (visited : List Visit) (r : MappedRawStorage)
    (m : Dict (Option ObjectKey) Str)
    → compute_mappings s r.fs visited ≡ ok m
    → sync s visited r ≡ (set_mappings m r, ok tt)
unfolding sync
sync_ok s visited r m h = ground (arith, h)

sync_err :
    (s : GenericStorage MappedRawStorage) (visited : List Visit) (r : MappedRawStorage) (e : Error)
    → compute_mappings s r.fs visited ≡ err e
    → sync s visited r ≡ (r, err e)
unfolding sync
sync_err s visited r e h = ground (arith, h)

sync_panic :
    (s : GenericStorage MappedRawStorage) (visited : List Visit) (r : MappedRawStorage)
    → compute_mappings s r.fs visited ≡ panic
    → sync s visited r ≡ (r, panic)
unfolding sync
sync_panic s visited r h = ground (arith, h)

change_lem : (c : Checkout) (st : Tracked) → (change c st).raw.file_mappings ≡ st.raw.file_mappings
unfolding change
change_lem c st = refl

sync_round-Follows :
    (s : GenericStorage MappedRawStorage) (hash : Str) (st st1 : Tracked)
    → sync_round s hash st ≡ ok st1
    → Follows s st st1.raw.file_mappings
unfolding Follows sync_round
sync_round-Follows s hash st st1 h =
    elim (Outcome-cases (compute_mappings s st.raw.fs st.visited)) [
      | inl (m, found) ↦
          let synced : sync s st.visited st.raw ≡ (set_mappings m st.raw, ok tt) =
            sync_ok s st.visited st.raw m found in
          let same : record st { raw = set_mappings m st.raw } ≡ st1 = ground (arith, synced, h) in
          inl (λ key.
            ap (λ x. lookup (some key) x.raw.file_mappings) (sym same)
            ∙ sync-last_file s st.visited st.raw (set_mappings m st.raw) key synced)
      | inr (inl (e, failed)) ↦
          let kept : sync s st.visited st.raw ≡ (st.raw, err e) =
            sync_err s st.visited st.raw e failed in
          let same : st ≡ st1 = ground (arith, kept, h) in
          inr (e, ap (λ x. x.1) kept, ap (λ x. x.raw.file_mappings) (sym same))
      | inr (inr died) ↦
          let dead : sync s st.visited st.raw ≡ (st.raw, panic) =
            sync_panic s st.visited st.raw died in
          absurd (ground (arith, dead, h))
    ]

-- Changes of the directory alone leave the mappings.
changes_keep :
    (s : GenericStorage MappedRawStorage) (later : List Checkout) (st st1 : Tracked)
    → sync_loop s (map changed later) st ≡ ok st1
    → st1.raw.file_mappings ≡ st.raw.file_mappings
unfolding sync_loop
changes_keep s [] st st1 h = ground (arith, h)
changes_keep s (c ∷ later) st st1 h = changes_keep s later (change c st) st1 h ∙ change_lem c st

-- After the last commit that was received, whatever changes in the directory then, the mappings are
-- those of the files that were in the directory when the commit was received, which need not be the
-- files of that commit; or they could not be found, and the mappings are the ones from before.
pub sync_loop-Follows :
    (s : GenericStorage MappedRawStorage) (before : List LoopEvent) (hash : Str)
    (later : List Checkout) (st st1 : Tracked)
    → sync_loop s (before ++ commit hash ∷ map changed later) st ≡ ok st1
    → (st0 : Tracked) × (sync_loop s before st ≡ ok st0) × Follows s st0 st1.raw.file_mappings
unfolding sync_loop
sync_loop-Follows s before hash later st st1 h =
    let (st0, early, rest) =
      bind-ok (sync_loop s before st) (sync_loop s (commit hash ∷ map changed later)) st1
        (sym (sync_loop-append s before (commit hash ∷ map changed later) st) ∙ h) in
    let (st2, round, last) =
      bind-ok (sync_round s hash st0) (sync_loop s (map changed later)) st1 rest in
    (
      st0,
      early,
      subst (Follows s st0) (sym (changes_keep s later st2 st1 last))
          (sync_round-Follows s hash st0 st2 round),
    )

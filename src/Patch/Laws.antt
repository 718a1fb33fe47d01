-- ===== src/Patch/Laws.antt =====
-- pkg/util/patch/patch.go: a patch makes the change that it was created of.
use libgitops.Prelude.{◌≡◌, sym, ap, ◌∙◌, false, arith}
use libgitops.Prelude.Text.{Str}
use libgitops.Prelude.Outcome.{Outcome, bind-ok, ok}
use libgitops.Runtime.{Object}
use libgitops.Raw.Content.{json}
use libgitops.Fs.{Fs, read_file, write_file}
use libgitops.Fs.Laws.{read_file-write_file}
use libgitops.Serializer.{Decoded, with_meta}
use libgitops.Storage.{patcher_apply}
use libgitops.Patch.{Patcher, patcher_create, apply_on_file}

-- What holds of the libraries below and of the encoding. A merge of a patch gives a text of the same
-- JSON value as the text that the patch leads to, which need not be that text. Texts of the same
-- value are decoded to the same object. A text that was encoded is decoded to what is encoded as
-- that text again.
pub record IsMerging (p : Patcher) (SameJson : Str → Str → Type 0) : Type 0 where
  pub merges :
      (old new patch : Str) (empty : Object)
      → p.create_two_way_merge_patch old new empty ≡ ok patch
      → (merged : Str) × (p.serializer.strategic_merge_patch old patch empty ≡ ok merged)
        × SameJson merged new
  pub same_decoded :
      (text other : Str)
      → SameJson text other
      → p.serializer.decode false json text ≡ p.serializer.decode false json other
  pub stable :
      (o : Decoded) (text : Str)
      → p.serializer.encode json o ≡ ok text
      → (d : Decoded) × (p.serializer.decode false json text ≡ ok d)
        × (p.serializer.encode json d ≡ ok text)

-- What the calls of `Create` have returned.
record IsMade (p : Patcher) (old new : Object) (patch old_bytes : Str) : Type 0 where
  new_bytes : Str
  empty : Object
  encoded : p.serializer.encode json (with_meta new) ≡ ok new_bytes
  made : p.serializer.new_object old.type_meta ≡ ok empty
  patched : p.create_two_way_merge_patch old_bytes new_bytes empty ≡ ok patch

calls_returned :
    (p : Patcher) (old new new1 : Object) (patch patch1 old_bytes old1 bytes1 : Str)
    (empty : Object)
    → p.serializer.encode json (with_meta old) ≡ ok old_bytes
    → p.serializer.encode json (with_meta old) ≡ ok old1
    → p.serializer.encode json (with_meta new1) ≡ ok bytes1
    → p.serializer.new_object old.type_meta ≡ ok empty
    → p.create_two_way_merge_patch old1 bytes1 empty ≡ ok patch1
    → ◌≡◌ {A = Outcome (Object × Str)} (ok (new1, patch1)) (ok (new, patch))
    → IsMade p old new patch old_bytes
calls_returned p old new new1 patch patch1 old_bytes old1 bytes1 empty before first encoded made
      patched last =
    let same_new : new1 ≡ new = ground (arith, last) in
    let same_patch : patch1 ≡ patch = ground (arith, last) in
    let same_old : old1 ≡ old_bytes = ground (arith, first, before) in
    record {
      new_bytes = bytes1;
      empty = empty;
      encoded = ap (λ o. p.serializer.encode json (with_meta o)) (sym same_new) ∙ encoded;
      made = made;
      patched =
          ap (λ o. p.create_two_way_merge_patch o bytes1 empty) (sym same_old)
          ∙ patched
          ∙ ap ok same_patch;
    }

patcher_create-IsMade :
    (p : Patcher) (old new : Object) (patch old_bytes : Str) (apply_fn : Object → Outcome Object)
    → p.serializer.encode json (with_meta old) ≡ ok old_bytes
    → patcher_create p old apply_fn ≡ ok (new, patch)
    → IsMade p old new patch old_bytes
unfolding patcher_create
patcher_create-IsMade p old new patch old_bytes apply_fn before h =
    let (old1, first, rest) = bind-ok (p.serializer.encode json (with_meta old)) _ (new, patch) h in
    let (new1, changed, rest1) = bind-ok (apply_fn old) _ (new, patch) rest in
    let (bytes1, encoded, rest2) =
      bind-ok (p.serializer.encode json (with_meta new1)) _ (new, patch) rest1 in
    let (empty, made, rest3) =
      bind-ok (p.serializer.new_object old.type_meta) _ (new, patch) rest2 in
    let (patch1, patched, last) =
      bind-ok (p.create_two_way_merge_patch old1 bytes1 empty) _ (new, patch) rest3 in
    calls_returned p old new new1 patch patch1 old_bytes old1 bytes1 empty before first encoded made
      patched last

patcher_apply-IsMade :
    (p : Patcher) (SameJson : Str → Str → Type 0)
    → IsMerging p SameJson
    → (old new : Object) (patch old_bytes : Str) → (made : IsMade p old new patch old_bytes)
    → patcher_apply p.serializer old_bytes patch old.type_meta ≡ ok made.new_bytes
unfolding patcher_apply
patcher_apply-IsMade p SameJson merging old new patch old_bytes made =
    let (merged, merge, same) =
      merging.merges old_bytes made.new_bytes patch made.empty made.patched in
    let equal = merging.same_decoded merged made.new_bytes same in
    let (d, decoded, again) = merging.stable (with_meta new) made.new_bytes made.encoded in
    ground (arith, made.made, merge, equal, decoded, again)

-- If a patch was made of a change to an object, and the file of the text that the object is encoded
-- as is patched with it without an error, then the file holds what the changed object is encoded as:
-- the merged text, of which only the JSON value is known, is decoded and encoded again.
pub apply_on_file-create :
    (p : Patcher) (SameJson : Str → Str → Type 0)
    → IsMerging p SameJson
    → (old new : Object) (apply_fn : Object → Outcome Object) (patch old_bytes path : Str)
      (fs fs' : Fs)
    → patcher_create p old apply_fn ≡ ok (new, patch)
    → p.serializer.encode json (with_meta old) ≡ ok old_bytes
    → read_file fs path ≡ ok old_bytes
    → apply_on_file p fs path patch old.type_meta ≡ (fs', ok tt)
    → read_file fs' path ≡ p.serializer.encode json (with_meta new)
unfolding apply_on_file
apply_on_file-create p SameJson merging old new apply_fn patch old_bytes path fs fs' created before
      held applied =
    let made = patcher_create-IsMade p old new patch old_bytes apply_fn before created in
    let wrote : write_file fs path made.new_bytes ≡ (fs', ok tt) = ground (
      arith,
      held,
      patcher_apply-IsMade p SameJson merging old new patch old_bytes made,
      applied,
    ) in
    read_file-write_file fs fs' path made.new_bytes wrote ∙ sym made.encoded

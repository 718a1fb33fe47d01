-- ===== src/Tests/Patches.antt =====
-- A serializer that writes the specification of the car, and merge patches that are the new text. A
-- merged text has a space before it, which decoding drops.
use libgitops.Storage.{patcher_apply}
use libgitops.Prelude.Dict.{lookup}
use libgitops.Fs.{fails}
use libgitops.Prelude.{
  nat_beq, if◌then◌else◌, ap, subst, ◌∙◌, arith, Bool-cases, inl, inr, ◌≡◌, refl, sym, [], ◌∷◌,
}
use libgitops.Prelude.Text.{Str, bytes}
use libgitops.Prelude.Outcome.{Outcome, ok, err, external}
use libgitops.Runtime.{Object}
use libgitops.Fs.{Fs, file, directory, read_file, write_file}
use libgitops.Serializer.{Decoded, with_meta, without_meta}
use libgitops.Tests.Samples.{car, car_serializer}
use libgitops.Patch.{Patcher, patcher_create, apply_on_file}
use libgitops.Patch.Laws.{IsMerging, apply_on_file-create}

abbrev unindent : Str → Str
unindent [] = []
unindent (c ∷ text) = let rest = unindent text in if nat_beq c b' ' then rest else c ∷ text

-- Specifications have no space at the start.
abbrev encode_spec : Decoded → Outcome Str
encode_spec (with_meta o) = ok (unindent o.spec)
encode_spec (without_meta t) = err (external 0)

abbrev patcher : Patcher
patcher = record {
  serializer = record car_serializer {
    encode = λ ct o. encode_spec o;
    decode = λ to_hub ct text. ok (with_meta (record car { spec = unindent text }));
    strategic_merge_patch = λ original patch empty. ok (b' ' ∷ patch);
  };
  create_two_way_merge_patch = λ old new empty. ok new;
}

unindent_twice : (s : Str) → unindent (unindent s) ≡ unindent s
unindent_twice [] = refl
unindent_twice (c ∷ s) = elim (Bool-cases (nat_beq c b' ')) [
  | inl blank ↦ ground (arith, blank, unindent_twice s)
  | inr full ↦ ground (arith, full)
]

stable_spec :
    (o : Decoded) (text : Str)
    → encode_spec o ≡ ok text
    → (d : Decoded) × (ok (with_meta (record car { spec = unindent text })) ≡ ok d)
      × (encode_spec d ≡ ok text)
stable_spec (with_meta o) text h =
    let same : unindent o.spec ≡ text = ground (arith, h) in
    let twice : unindent (unindent text) ≡ text =
      subst (λ t. unindent (unindent t) ≡ t) same
        (ap unindent (unindent_twice o.spec) ∙ unindent_twice o.spec) in
    (with_meta (record car { spec = unindent text }), refl, ap ok twice)
stable_spec (without_meta i) text h = ground (arith, h)

-- Texts that differ in space at the start only.
abbrev SameText : Str → Str → Type 0
SameText s t = unindent s ≡ unindent t

patcher-IsMerging : IsMerging patcher SameText
patcher-IsMerging = record {
  merges = λ old new patch empty h.
      (b' ' ∷ patch, refl, ap (λ (o : Outcome Str). elim o [ ok x ↦ unindent x | _ ↦ [] ]) (sym h));
  same_decoded = λ text other h. ap (λ t. ok (with_meta (record car { spec = t }))) h;
  stable = λ o text h. stable_spec o text h;
}

abbrev paint : Object → Outcome Object
paint o = ok (record o { spec = bytes "red" })

abbrev shelf : Str → Fs
shelf text = record {
  nodes = (bytes "/", directory) ∷ (bytes "/car.json", file text 1) ∷ [];
  clock = 1;
  failing = [];
}

painted : patcher_create patcher car paint ≡ ok (record car { spec = bytes "red" }, bytes "red")
unfolding patcher_create
painted = refl

shelf_read : read_file (shelf car.spec) (bytes "/car.json") ≡ ok car.spec
unfolding read_file fails lookup
shelf_read = refl

shelf_patched :
    apply_on_file patcher (shelf car.spec) (bytes "/car.json") (bytes "red") car.type_meta
    ≡ ((write_file (shelf car.spec) (bytes "/car.json") (bytes "red")).0, ok tt)
unfolding apply_on_file read_file fails lookup patcher_apply write_file
shelf_patched = refl

apply_on_file-create_example :
    read_file (write_file (shelf car.spec) (bytes "/car.json") (bytes "red")).0 (bytes "/car.json")
    ≡ ok (bytes "red")
apply_on_file-create_example =
    apply_on_file-create patcher SameText patcher-IsMerging car (record car { spec = bytes "red" })
      paint (bytes "red") car.spec (bytes "/car.json") (shelf car.spec)
      (write_file (shelf car.spec) (bytes "/car.json") (bytes "red")).0 painted refl shelf_read
      shelf_patched

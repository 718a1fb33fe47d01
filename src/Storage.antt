-- ===== src/Storage.antt =====
-- pkg/storage/storage.go: `GenericStorage` over any `RawStorage` and serializer. Also `Apply` of
-- pkg/util/patch/patch.go, through which `Patch` goes.
pub mod Partial
pub mod Laws
pub mod Listing
pub mod Content
use libgitops.Prelude.{
  ℕ, Bool, true, false, not, nat_beq, Option, none, some, List, [], ◌∷◌, length, if◌then◌else◌,
}
use libgitops.Prelude.Text.{Str, bytes, str_eq, is_empty}
use libgitops.Prelude.Outcome.{
  Outcome, Done, ok, err, panic, ◌>>=◌, ◌>>◌, not_found, already_exists, ambiguous_find,
  unidentified, not_an_object,
}
use libgitops.Key.{Gvk, ObjectKey}
use libgitops.Runtime.{Object, IdentifierFactory}
use libgitops.Filter.{ListOption, make_list_options, run_filters}
use libgitops.Raw.{RawStorage}
use libgitops.Raw.Content.{json}
use libgitops.Serializer.{Serializer, with_meta, without_meta}
use libgitops.Storage.Partial.{decode_partial_objects, first_object}

-- `kruntime.APIVersionInternal`
abbrev pub internal_version : Str
internal_version = bytes "__internal"

-- `GenericStorage` of a world `W` that the raw storage changes.
pub record GenericStorage (W : Type 0) : Type 0 where
  pub raw : RawStorage W
  pub serializer : Serializer
  pub identifiers : List IdentifierFactory

-- `NewGenericStorage`
unfoldable pub new_generic_storage :
    {W : Type 0} → RawStorage W → Serializer → List IdentifierFactory → GenericStorage W
new_generic_storage raw ser identifiers = record {
  raw = raw;
  serializer = ser;
  identifiers = identifiers;
}

-- `identify`, the loop over the factories.
unfoldable pub identify : List IdentifierFactory → Object → Option Str
identify [] o = none
identify (factory ∷ factories) o = elim (factory o) [
  | some id ↦ some id
  | none ↦ identify factories o
]

-- `patcher.Apply` and `patcher.serializerEncode`
unfoldable pub patcher_apply : Serializer → Str → Str → Gvk → Outcome Str
patcher_apply ser original patch gvk = do
  empty ← ser.new_object gvk
  merged ← ser.strategic_merge_patch original patch empty
  decoded ← ser.decode false json merged
  ser.encode json decoded

-- The switch on the number of matches in `Find`.
one_of : List Object → Outcome Object
one_of [] = err not_found
one_of (o ∷ []) = ok o
one_of (o ∷ p ∷ objs) = err ambiguous_find

-- `now` is the time of `metav1.Now`, in nanoseconds since the zero time, which is the one that is not set.
unfoldable pub stamp : ℕ → Object → Object
stamp now obj =
    if nat_beq obj.creation_timestamp 0 then record obj { creation_timestamp = now } else obj

module _ {W : Type 0} (s : GenericStorage W) where
  unfoldable pub object_key_for : Object → Outcome ObjectKey
  unfolding identify
  object_key_for obj = do
    gvk ← (if obj.is_partial then ok obj.type_meta else s.serializer.gvk_for_object obj)
    elim (identify s.identifiers obj) [
      | none ↦ err unidentified
      | some id ↦ ok (record { kind_key = gvk; identifier = id })
    ]

  unfoldable pub decode : W → ObjectKey → Str → Outcome Object
  decode w key content = do
    let ct = s.raw.content_type w key
    decoded ← s.serializer.decode (str_eq key.kind_key.version internal_version) ct content
    elim decoded [
      | without_meta id ↦ err not_an_object
      | with_meta obj ↦ ok (record obj { type_meta = key.kind_key })
    ]

  unfoldable pub get : W → ObjectKey → Outcome Object
  unfolding decode
  get w key = do content ← s.raw.read w key; decode w key content

  unfoldable pub decode_meta : ObjectKey → Str → Outcome Object
  decode_meta key content = do
    partobjs ← decode_partial_objects s.serializer content false (some key.kind_key)
    first_object partobjs

  unfoldable pub get_meta : W → ObjectKey → Outcome Object
  unfolding decode_meta
  get_meta w key = do content ← s.raw.read w key; decode_meta key content

  -- The content type that the raw storage gives for the key, and JSON if it gives none.
  unfoldable pub content_type_for : W → ObjectKey → Str
  content_type_for w key =
      if is_empty (s.raw.content_type w key) then json else s.raw.content_type w key

  -- `write`: the object that the caller holds is stamped, also if an error follows.
  unfoldable pub write : ℕ → W → ObjectKey → Object → W × Object × Done
  unfolding stamp content_type_for
  write now w key obj =
      elim (s.serializer.encode (content_type_for w key) (with_meta (stamp now obj))) [
        | ok content ↦ let (w', r) = s.raw.write w key content in (w', stamp now obj, r)
        | err e ↦ (w, stamp now obj, err e)
        | panic ↦ (w, stamp now obj, panic)
      ]

  unfoldable pub create : ℕ → W → Object → W × Object × Done
  unfolding write
  create now w obj = elim (object_key_for obj) [
    | err e ↦ (w, obj, err e)
    | panic ↦ (w, obj, panic)
    | ok key ↦ elim (s.raw.exists w key) [
      | err e ↦ (w, obj, err e)
      | panic ↦ (w, obj, panic)
      | ok found ↦ if found then (w, obj, err already_exists) else write now w key obj
    ]
  ]

  unfoldable pub update : ℕ → W → Object → W × Object × Done
  unfolding write
  update now w obj = elim (object_key_for obj) [
    | err e ↦ (w, obj, err e)
    | panic ↦ (w, obj, panic)
    | ok key ↦ elim (s.raw.exists w key) [
      | err e ↦ (w, obj, err e)
      | panic ↦ (w, obj, panic)
      | ok found ↦ if not found then (w, obj, err not_found) else write now w key obj
    ]
  ]

  unfoldable pub patch : W → ObjectKey → Str → W × Done
  patch w key delta =
      elim (do content ← s.raw.read w key; patcher_apply s.serializer content delta key.kind_key) [
        | ok content ↦ s.raw.write w key content
        | err e ↦ (w, err e)
        | panic ↦ (w, panic)
      ]

  unfoldable pub delete : W → ObjectKey → W × Done
  delete w key = s.raw.delete w key

  unfoldable pub checksum : W → ObjectKey → Outcome ℕ
  checksum w key = s.raw.checksum w key

  -- The loop of `walkKind`. `fn` makes one result of a key and its content, and the results so far
  -- are returned beside an error too, as in `list` and `ListMeta`.
  unfoldable pub walk_keys :
      W → (ObjectKey → Str → Outcome Object) → List ObjectKey → List Object × Done
  walk_keys w fn [] = ([], ok tt)
  walk_keys w fn (key ∷ keys) =
      let (result, walkerr) = walk_keys w fn keys in
      elim (s.raw.exists w key) [
        | err e ↦ ([], err e)
        | panic ↦ ([], panic)
        | ok found ↦
            if not found
            then (result, walkerr)
            else elim (do content ← s.raw.read w key; fn key content) [
              | ok obj ↦ (obj ∷ result, walkerr)
              | err e ↦ ([], err e)
              | panic ↦ ([], panic)
            ]
      ]

  unfoldable pub walk_kind : W → (ObjectKey → Str → Outcome Object) → Gvk → List Object × Done
  unfolding walk_keys
  walk_kind w fn kind = elim (s.raw.list w kind) [
    | ok keys ↦ walk_keys w fn keys
    | err e ↦ ([], err e)
    | panic ↦ ([], panic)
  ]

  unfoldable pub list_meta : W → Gvk → List Object × Done
  unfolding walk_kind
  list_meta w kind = walk_kind w decode_meta kind

  unfoldable pub list : W → Gvk → List ListOption → Outcome (List Object)
  unfolding walk_kind
  list w kind opts = do
    filters ← make_list_options opts
    let (objs, walkerr) = walk_kind w (decode w) kind
    walkerr >> run_filters filters objs

  unfoldable pub find : W → Gvk → List ListOption → Outcome Object
  unfolding one_of
  find w kind opts = do objs ← list w kind opts; one_of objs

  unfoldable pub count : W → Gvk → Outcome ℕ
  count w kind = do entries ← s.raw.list w kind; ok (length entries)

-- ===== src/Storage/Laws.antt =====
-- `Create`, `Update` and what `Get` returns after them, over any raw storage that reads back what
-- it wrote.
use libgitops.Prelude.{◌/◌, ◌*◌, ℕ, Bool, true, false, ◌≡◌, inl, inr, arith}
use libgitops.Prelude.Text.{Str, str_eq, is_empty}
use libgitops.Prelude.Outcome.{Outcome-cases, ok, err, not_found, already_exists}
use libgitops.Key.{ObjectKey}
use libgitops.Runtime.{Object}
use libgitops.Raw.{RawStorage}
use libgitops.Serializer.{Serializer, with_meta}
use libgitops.Storage.{
  GenericStorage, object_key_for, content_type_for, stamp, write, create, update, get,
  internal_version,
}

-- What `GenericStorage` relies on in its raw storage.
pub record RawLaws {W : Type 0} (raw : RawStorage W) : Type 0 where
  pub read_written :
      (w w' : W) (key : ObjectKey) (content : Str)
      → raw.write w key content ≡ (w', ok tt)
      → (raw.read w' key ≡ ok content) × (raw.exists w' key ≡ ok true)
  pub same_content_type :
      (w w' : W) (key : ObjectKey) (content : Str)
      → raw.write w key content ≡ (w', ok tt)
      → raw.content_type w' key ≡ raw.content_type w key

-- What the encoding keeps of an object: its creation timestamp is written in whole seconds.
abbrev pub in_seconds : Object → Object
in_seconds o = record o { creation_timestamp = o.creation_timestamp / 1000000000 * 1000000000 }

-- The object, once encoded, is decoded to what the encoding keeps of it, if no conversion is asked
-- for.
pub record RoundTrips (ser : Serializer) (o : Object) : Type 0 where
  pub decode_encoded :
      (ct content : Str)
      → ser.encode ct (with_meta o) ≡ ok content
      → ser.decode false ct content ≡ ok (with_meta (in_seconds o))

module _ {W : Type 0} (s : GenericStorage W) where
  -- If the key of the object and its existence can be told, then exactly one of `Create` and `Update`
  -- writes the object, and the other one returns its error and leaves all as it was.
  pub create_or_update :
      (now : ℕ) (w : W) (obj : Object) (key : ObjectKey) (found : Bool)
      → object_key_for s obj ≡ ok key
      → s.raw.exists w key ≡ ok found
      → (found ≡ true
          → (create s now w obj ≡ (w, obj, err already_exists))
            × (update s now w obj ≡ write s now w key obj))
        × (found ≡ false
            → (create s now w obj ≡ write s now w key obj)
              × (update s now w obj ≡ (w, obj, err not_found)))
  unfolding create update
  create_or_update now w obj key found k e = (
    λ t. (ground (arith, k, e, t), ground (arith, k, e, t)),
    λ t. (ground (arith, k, e, t), ground (arith, k, e, t)),
  )

  -- What a successful write has done.
  record Stored (now : ℕ) (w w' : W) (key : ObjectKey) (obj obj' : Object) : Type 0 where
    content : Str
    stamped : obj' ≡ stamp now obj
    encoded : s.serializer.encode (content_type_for s w key) (with_meta obj') ≡ ok content
    wrote : s.raw.write w key content ≡ (w', ok tt)

  write-Stored :
      (now : ℕ) (w w' : W) (key : ObjectKey) (obj obj' : Object)
      → write s now w key obj ≡ (w', obj', ok tt)
      → Stored now w w' key obj obj'
  unfolding write
  write-Stored now w w' key obj obj' h =
      elim (Outcome-cases
        (s.serializer.encode (content_type_for s w key) (with_meta (stamp now obj)))) [
          | inl (content, e) ↦ record {
            content = content;
            stamped = ground (arith, e, h);
            encoded = ground (arith, e, h);
            wrote = ground (arith, e, h);
          }
          | inr (inl (o, e)) ↦ ground (arith, e, h)
          | inr (inr e) ↦ ground (arith, e, h)
        ]

  create-write :
      (now : ℕ) (w w' : W) (obj obj' : Object)
      → create s now w obj ≡ (w', obj', ok tt)
      → (key : ObjectKey) × (object_key_for s obj ≡ ok key)
        × (s.raw.exists w key ≡ ok false)
        × (write s now w key obj ≡ (w', obj', ok tt))
  unfolding create
  create-write now w w' obj obj' h = elim (Outcome-cases (object_key_for s obj)) [
    | inr (inl (x, k)) ↦ absurd (ground (arith, k, h))
    | inr (inr k) ↦ absurd (ground (arith, k, h))
    | inl (key, k) ↦ elim (Outcome-cases (s.raw.exists w key)) [
      | inr (inl (x, e)) ↦ absurd (ground (arith, k, e, h))
      | inr (inr e) ↦ absurd (ground (arith, k, e, h))
      | inl (true, e) ↦ absurd (ground (arith, k, e, h))
      | inl (false, e) ↦ (key, k, e, ground (arith, k, e, h))
    ]
  ]

  update-write :
      (now : ℕ) (w w' : W) (obj obj' : Object)
      → update s now w obj ≡ (w', obj', ok tt)
      → (key : ObjectKey) × (object_key_for s obj ≡ ok key)
        × (s.raw.exists w key ≡ ok true)
        × (write s now w key obj ≡ (w', obj', ok tt))
  unfolding update
  update-write now w w' obj obj' h = elim (Outcome-cases (object_key_for s obj)) [
    | inr (inl (x, k)) ↦ absurd (ground (arith, k, h))
    | inr (inr k) ↦ absurd (ground (arith, k, h))
    | inl (key, k) ↦ elim (Outcome-cases (s.raw.exists w key)) [
      | inr (inl (x, e)) ↦ absurd (ground (arith, k, e, h))
      | inr (inr e) ↦ absurd (ground (arith, k, e, h))
      | inl (false, e) ↦ absurd (ground (arith, k, e, h))
      | inl (true, e) ↦ (key, k, e, ground (arith, k, e, h))
    ]
  ]

  module _ (laws : RawLaws s.raw) where
    get-write :
        (now : ℕ) (w w' : W) (key : ObjectKey) (obj obj' : Object)
        → is_empty (s.raw.content_type w key) ≡ false
        → str_eq key.kind_key.version internal_version ≡ false
        → RoundTrips s.serializer (stamp now obj)
        → write s now w key obj ≡ (w', obj', ok tt)
        → get s w' key ≡ ok (record (in_seconds obj') { type_meta = key.kind_key })
    unfolding get content_type_for
    get-write now w w' key obj obj' ct external trips h =
        let stored = write-Stored now w w' key obj obj' h in
        let written = laws.read_written w w' key stored.content stored.wrote in
        let same = laws.same_content_type w w' key stored.content stored.wrote in
        let ct_of = s.raw.content_type w key in
        let typed : s.serializer.encode ct_of (with_meta (stamp now obj)) ≡ ok stored.content =
          ground (arith, stored.encoded, stored.stamped, ct) in
        let decoded = trips.decode_encoded ct_of stored.content typed in
        ground (arith, written.0, same, external, stored.stamped, decoded)

    -- A successful Create found no resource under the object's key, has stamped the object, and
    -- Get then returns that object under the kind of its key, with its creation timestamp cut down to
    -- whole seconds, if the raw storage has a content type for the key, the version is external and
    -- the stamped object is decoded to what the encoding keeps of it.
    pub get-create :
        (now : ℕ) (w w' : W) (key : ObjectKey) (obj obj' : Object)
        → object_key_for s obj ≡ ok key
        → is_empty (s.raw.content_type w key) ≡ false
        → str_eq key.kind_key.version internal_version ≡ false
        → RoundTrips s.serializer (stamp now obj)
        → create s now w obj ≡ (w', obj', ok tt)
        → (s.raw.exists w key ≡ ok false)
          × (obj' ≡ stamp now obj)
          × (get s w' key ≡ ok (record (in_seconds obj') { type_meta = key.kind_key }))
    get-create now w w' key obj obj' k ct external trips h =
        let (key', k', absent, wrote) = create-write now w w' obj obj' h in
        let same : key' ≡ key = cc in
        let wrote' : write s now w key obj ≡ (w', obj', ok tt) = rw same at wrote in
        (
          rw same at absent,
          (write-Stored now w w' key obj obj' wrote').stamped,
          get-write now w w' key obj obj' ct external trips wrote',
        )

    -- A successful Update found the resource under the object's key, has stamped the object, and
    -- Get then returns that object under the kind of its key, with its creation timestamp cut down to
    -- whole seconds, if the raw storage has a content type for the key, the version is external and
    -- the stamped object is decoded to what the encoding keeps of it.
    pub get-update :
        (now : ℕ) (w w' : W) (key : ObjectKey) (obj obj' : Object)
        → object_key_for s obj ≡ ok key
        → is_empty (s.raw.content_type w key) ≡ false
        → str_eq key.kind_key.version internal_version ≡ false
        → RoundTrips s.serializer (stamp now obj)
        → update s now w obj ≡ (w', obj', ok tt)
        → (s.raw.exists w key ≡ ok true)
          × (obj' ≡ stamp now obj)
          × (get s w' key ≡ ok (record (in_seconds obj') { type_meta = key.kind_key }))
    get-update now w w' key obj obj' k ct external trips h =
        let (key', k', found, wrote) = update-write now w w' obj obj' h in
        let same : key' ≡ key = cc in
        let wrote' : write s now w key obj ≡ (w', obj', ok tt) = rw same at wrote in
        (
          rw same at found,
          (write-Stored now w w' key obj obj' wrote').stamped,
          get-write now w w' key obj obj' ct external trips wrote',
        )

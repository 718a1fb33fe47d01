-- ===== src/Tests/Storages.antt =====
-- `GenericStorage` at concrete inputs.
use libgitops.Prelude.{
  ap, sym, arith, ◌/◌, ◌*◌, ℕ, true, false, ◌≡◌, ◌≢◌, ◌↔◌, ◌≤◌, refl, none, some, List, [], ◌∷◌,
  map, all, keep_if, length,
}
use libgitops.Prelude.Text.{Str, bytes, join, split}
use libgitops.Prelude.Dict.{lookup, insert}
use libgitops.Prelude.Outcome.{
  Outcome, ◌>>=◌, external, ok, err, not_tracked, not_found, already_exists, ambiguous_find,
}
use libgitops.FilePath
use libgitops.Key.{ObjectKey, key_beq, nilable_beq, key_eq}
use libgitops.Runtime.{Object, metav1_name_identify}
use libgitops.Filter.{NameFilter}
use libgitops.Filter.Laws.{by_name, option_of, accepts}
use libgitops.Fs.{Fs, write_file, mkdir_all, file_exists, fails}
use libgitops.Raw.Generic
use libgitops.Raw.Generic.{generic_raw, key_path}
use libgitops.Raw.Mapped
use libgitops.Raw.Mapped.{MappedRawStorage, mapped_raw}
use libgitops.Serializer.{Serializer, Decoded, with_meta, without_meta}
use libgitops.Storage.{
  GenericStorage, new_generic_storage, object_key_for, content_type_for, stamp, write, create,
  update, get, list, find,
}
use libgitops.Storage.Laws.{RoundTrips, in_seconds, create_or_update, get-create}
use libgitops.Storage.Content.{generic_raw-RawLaws, create_untracked}
use libgitops.Storage.Listing.{Walked, find_lem, list_lem}
use libgitops.Tests.Samples.{
  car_kind, car_key, car, disk, manifests, jsons, car_serializer, car_storage,
}

abbrev json_storage : GenericStorage Fs
json_storage = car_storage (generic_raw jsons)

abbrev manifest_storage : GenericStorage MappedRawStorage
manifest_storage = car_storage mapped_raw

json_key : object_key_for json_storage car ≡ ok car_key
unfolding object_key_for metav1_name_identify
json_key = refl

manifest_key : object_key_for manifest_storage car ≡ ok car_key
unfolding object_key_for metav1_name_identify
manifest_key = refl

-- A car without a creation timestamp, and a serializer that writes the timestamp of a car in seconds
-- and then its specification.
abbrev fresh_car : Object
fresh_car = record car { creation_timestamp = 0 }

abbrev write_car : Decoded → Outcome Str
write_car (with_meta o) = ok (o.creation_timestamp / 1000000000 ∷ o.spec)
write_car (without_meta t) = err (external 0)

abbrev read_car : Str → Outcome Decoded
read_car [] = err (external 0)
read_car (t ∷ text) =
    ok (with_meta (record car { creation_timestamp = t * 1000000000; spec = text }))

abbrev car_writer : Serializer
car_writer = record car_serializer {
  encode = λ ct o. write_car o;
  decode = λ to_hub ct content. read_car content;
}

abbrev stamped_storage : GenericStorage Fs
stamped_storage = record json_storage { serializer = car_writer }

-- 5.7 seconds.
abbrev now : ℕ
now = 5700000000

abbrev stamped_car : Object
stamped_car = record car { creation_timestamp = now }

car_written :
    (content : Str)
    → write_car (with_meta stamped_car) ≡ ok content
    → read_car content ≡ ok (with_meta (in_seconds stamped_car))
car_written [] h = ground (arith, h)
car_written (t ∷ text) h = ap (λ (o : Outcome Str). o >>= read_car) (sym h)

car-RoundTrips : RoundTrips car_writer (stamp now fresh_car)
unfolding stamp
car-RoundTrips = record { decode_encoded = λ ct content h. car_written content h }

fresh_key : object_key_for stamped_storage fresh_car ≡ ok car_key
unfolding object_key_for metav1_name_identify
fresh_key = refl

abbrev after_create : Fs
after_create = (create stamped_storage now disk fresh_car).0

car_created : create stamped_storage now disk fresh_car ≡ (after_create, stamped_car, ok tt)
unfolding create object_key_for metav1_name_identify generic_raw Generic.write key_path
    FilePath.join_path FilePath.dir file_exists lookup insert fails join split mkdir_all write_file
car_created = refl

get-create_example :
    ((generic_raw jsons).exists disk car_key ≡ ok false)
    × (stamped_car ≡ stamp now fresh_car)
    × (get stamped_storage after_create car_key
        ≡ ok (record car { creation_timestamp = 5000000000 }))
unfolding generic_raw
get-create_example =
    get-create stamped_storage (generic_raw-RawLaws jsons) now disk after_create car_key fresh_car
      stamped_car fresh_key refl refl car-RoundTrips car_created

car_found : mapped_raw.exists manifests car_key ≡ ok true
unfolding mapped_raw Mapped.exists file_exists lookup fails nilable_beq key_beq
car_found = refl

create_or_update_example :
    (true ≡ true
      → (create manifest_storage 9 manifests car ≡ (manifests, car, err already_exists))
        × (update manifest_storage 9 manifests car
            ≡ write manifest_storage 9 manifests car_key car))
    × (true ≡ false
        → (create manifest_storage 9 manifests car ≡ write manifest_storage 9 manifests car_key car)
          × (update manifest_storage 9 manifests car ≡ (manifests, car, err not_found)))
create_or_update_example =
    create_or_update manifest_storage 9 manifests car car_key true manifest_key car_found

abbrev new_car : Object
new_car = record car { name = bytes "new" }

abbrev new_key : ObjectKey
new_key = record car_key { identifier = bytes "default/new" }

new_car_key :
    object_key_for
      (new_generic_storage mapped_raw car_serializer (metav1_name_identify ∷ []))
      new_car
    ≡ ok new_key
unfolding object_key_for metav1_name_identify new_generic_storage
new_car_key = refl

new_car_unmapped : lookup (some new_key) manifests.file_mappings ≡ none
unfolding lookup nilable_beq key_beq
new_car_unmapped = refl

create_untracked_example :
    ((create
        (new_generic_storage mapped_raw car_serializer (metav1_name_identify ∷ []))
        9
        manifests
        new_car).0
      ≡ manifests)
    × ((create
          (new_generic_storage mapped_raw car_serializer (metav1_name_identify ∷ []))
          9
          manifests
          new_car).2
        ≢ ok tt)
    × ((content : Str)
        → car_serializer.encode
            (content_type_for
              (new_generic_storage mapped_raw car_serializer (metav1_name_identify ∷ []))
              manifests
              new_key)
            (with_meta (stamp 9 new_car))
          ≡ ok content
        → (create
            (new_generic_storage mapped_raw car_serializer (metav1_name_identify ∷ []))
            9
            manifests
            new_car).2
          ≡ err not_tracked)
    × (update
          (new_generic_storage mapped_raw car_serializer (metav1_name_identify ∷ []))
          9
          manifests
          new_car
        ≡ (manifests, new_car, err not_found))
create_untracked_example =
    create_untracked car_serializer (metav1_name_identify ∷ []) 9 manifests new_car new_key
      new_car_key new_car_unmapped

abbrev named_foo : NameFilter
named_foo = record { name = bytes "foo"; namespace = []; match_prefix = false }

find_lem_example :
    ((o : Object)
      → find manifest_storage manifests car_kind [] ≡ ok o
      → list manifest_storage manifests car_kind [] ≡ ok (o ∷ []))
    × ((o : Object)
        → list manifest_storage manifests car_kind [] ≡ ok (o ∷ [])
        → find manifest_storage manifests car_kind [] ≡ ok o)
    × (list manifest_storage manifests car_kind [] ≡ ok []
        → find manifest_storage manifests car_kind [] ≡ err not_found)
    × ((objs : List Object)
        → list manifest_storage manifests car_kind [] ≡ ok objs
        → 2 ≤ length objs
        → find manifest_storage manifests car_kind [] ≡ err ambiguous_find)
find_lem_example = find_lem manifest_storage manifests car_kind []

list_lem_example :
    (list manifest_storage manifests car_kind (map option_of (by_name named_foo ∷ []))
      ≡ ok (car ∷ []))
    ↔ ((keys : List ObjectKey) × (got : List Object) × (mapped_raw.list manifests car_kind
          ≡ ok keys)
        × Walked manifest_storage manifests keys got
        × ((car ∷ []) ≡ keep_if (λ o. all (λ c. accepts c o) (by_name named_foo ∷ [])) got))
list_lem_example =
    list_lem manifest_storage manifests car_kind (by_name named_foo ∷ []) (car ∷ []) ((λ h. cc), tt)

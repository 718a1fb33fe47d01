-- ===== src/Tests/Samples.antt =====
-- The data of the tests: two objects, a file system with a manifest, and a serializer that knows one
-- object.
use libgitops.Prelude.{true, false, none, some, [], ◌∷◌, ◌++◌}
use libgitops.Prelude.Text.{bytes}
use libgitops.Prelude.Outcome.{ok}
use libgitops.Key.{Gvk, ObjectKey}
use libgitops.Runtime.{Object, metav1_name_identify}
use libgitops.Fs.{Fs, file, directory}
use libgitops.Raw.{RawStorage}
use libgitops.Raw.Generic.{GenericRawStorage}
use libgitops.Raw.Mapped.{MappedRawStorage}
use libgitops.Serializer.{Serializer, with_meta}
use libgitops.Storage.{GenericStorage}

abbrev pub car_kind : Gvk
car_kind = record { group = bytes "sample"; version = bytes "v1"; kind = bytes "Car" }

abbrev pub car_key : ObjectKey
car_key = record { kind_key = car_kind; identifier = bytes "default/foo" }

abbrev pub bike_key : ObjectKey
bike_key = record { kind_key = car_kind; identifier = bytes "default/bar" }

abbrev pub car : Object
car = record {
  type_meta = car_kind;
  namespace = bytes "default";
  name = bytes "foo";
  uid = bytes "599615df";
  creation_timestamp = 7;
  annotations = none;
  is_partial = false;
  spec = bytes "SAAB";
}

abbrev pub disk : Fs
disk = record {
  nodes =
      (bytes "/repo", directory)
      ∷ (bytes "/repo/car.yaml", file (bytes "old") 1)
      ∷ (bytes "/repo/bike.yaml", file (bytes "bike") 2)
      ∷ [];
  clock = 2;
  failing = [];
}

abbrev pub manifests : MappedRawStorage
manifests = record {
  dir = bytes "/repo";
  file_mappings =
      (some car_key, bytes "/repo/car.yaml") ∷ (some bike_key, bytes "/repo/bike.yaml") ∷ [];
  fs = disk;
}

abbrev pub jsons : GenericRawStorage
jsons = record {
  dir = bytes "/repo/objects";
  group = bytes "sample";
  version = bytes "v1";
  content = bytes "application/json";
  ext = bytes ".json";
}

-- Every object is written as the same text, and every text is read as the car.
abbrev pub car_serializer : Serializer
car_serializer = record {
  encode = λ ct o. ok (bytes "car");
  decode = λ to_hub ct content. ok (with_meta car);
  gvk_for_object = λ o. ok o.type_meta;
  recognizes = λ kind. true;
  new_object = λ kind. ok (record car { type_meta = kind });
  read_frame_list = λ content. ok (content ∷ []);
  new_partial_object = λ frame. ok (record car { is_partial = true });
  strategic_merge_patch = λ original patch empty. ok (original ++ patch);
}

module _ {W : Type 0} (raw : RawStorage W) where
  abbrev pub car_storage : GenericStorage W
  car_storage = record {
    raw = raw;
    serializer = car_serializer;
    identifiers = metav1_name_identify ∷ [];
  }

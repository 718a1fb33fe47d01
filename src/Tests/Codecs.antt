-- ===== src/Tests/Codecs.antt =====
-- A scheme of one kind in two versions, the second one of a hub, with its codecs and YAML trees.
use libgitops.Prelude.{
  ℕ, ◌≡◌, refl, ap, sym, ◌↔◌, Bool, true, false, not, ◌&&◌, ◌||◌, Option, none, some, List, [], ◌∷◌,
  ◌++◌, arith,
}
use libgitops.Prelude.Text.{Str, bytes, str_eq, is_empty}
use libgitops.Prelude.Dict.{Dict}
use libgitops.Prelude.Outcome.{Outcome, Error, ok, err, ◌>>=◌, external, eof}
use libgitops.Key.{Gvk}
use libgitops.Frames.{Source, FrameReader}
use libgitops.Codec.{Objects, Scheme, gvk_for_object}
use libgitops.Codec.Annotations.{KeepsAnnotations, is_meta}
use libgitops.Codec.Comments.{Trees, FrameSink, is_no_stored_comments}
use libgitops.Codec.Comments.Laws.{IsForeign}
use libgitops.Codec.Comments.Sources.{Decodes}
use libgitops.Codec.Convertor.{empty_gvk}
use libgitops.Codec.Convertor.Laws.{IsTyped}
use libgitops.Codec.Convertor.Targets.{KeepsHubs, IsSpoke}
use libgitops.Codec.Decoder.{Library, Decoded}
use libgitops.Codec.Decoder.Laws.{IsCoherent}
use libgitops.Codec.Encoder.{Codecs}
use libgitops.Codec.Encoder.Laws.{IsLog}
use libgitops.Codec.Defaulter.Laws.{IsAggregate, AllNil}

pub record Car : Type 0 where
  pub gvk : Gvk
  pub go_type : Gvk
  pub hub : Bool
  pub text : Str
  pub annotations : Option (Dict Str Str)

abbrev pub car_kind : Str → Gvk
car_kind version = record { group = bytes "g"; version = version; kind = bytes "Car" }

abbrev pub v1 : Gvk
v1 = car_kind (bytes "v1")

abbrev pub v2 : Gvk
v2 = car_kind (bytes "v2")

abbrev pub new_car : Gvk → Str → Car
new_car gvk text = record {
  gvk = empty_gvk;
  go_type = gvk;
  hub = str_eq gvk.version (bytes "v2");
  text = text;
  annotations = none;
}

abbrev pub cars : Objects Car
cars = record {
  get_gvk = λ o. o.gvk;
  set_gvk = λ g o. record o { gvk = g };
  deep_copy = λ o. o;
  is_convertible = λ o. not o.hub;
  is_hub = λ o. o.hub;
  convert_to = λ src hub. ok (record hub { text = src.text });
  convert_from = λ dst hub. ok (record dst { text = hub.text });
  list_items = λ o. none;
  unknown = new_car v1 [];
  is_meta_accessor = λ o. true;
  has_object_meta = λ o. true;
  is_meta_object = λ o. true;
  get_annotations = λ o. o.annotations;
  set_annotations = λ a o. record o { annotations = some a };
}

-- The state says whether the type List was added.
abbrev pub garage : Scheme Bool Car
garage = record {
  recognizes = λ g s.
      (str_eq g.group (bytes "g")
        && (str_eq g.version (bytes "v1") || str_eq g.version (bytes "v2")))
      || (s && is_empty g.group);
  add_list = λ s. true;
  is_group_registered = λ group s. str_eq group (bytes "g") || s;
  is_version_registered = λ gv s.
      (str_eq gv.group (bytes "g")
        && (str_eq gv.version (bytes "v1") || str_eq gv.version (bytes "v2")))
      || s;
  prioritized_versions = λ group s. record { group = group; version = bytes "v2" } ∷ [];
  all_known_types = λ s. v1 ∷ v2 ∷ [];
  object_kinds = λ o s. ok (o.go_type ∷ [], false);
  new = λ g s. ok (new_car g []);
  convert = λ src dst s. ok (record dst { text = src.text });
  convert_to_version = λ o to s. ok o;
  default = λ o s. record o { text = bytes "default" };
  has_conversion_path = λ o s. ok true;
}

abbrev pub trees : Trees Str
trees = record {
  encode_to_string = λ text. b'=' ∷ text;
  decode_string = λ text. elim text [ [] ↦ err (external 0) | c ∷ rest ↦ ok rest ];
  parse = λ text. ok text;
  to_string = λ y. ok y;
  copy_comments = λ from to. ok (from ++ to);
  must_string = λ y. ok y;
}

abbrev pub decode_car : Str → Option Car → Outcome (Decoded Car)
decode_car [] into = err (external 1)
decode_car (c ∷ doc) none = ok (record { obj = some (new_car v1 (c ∷ doc)); is_into = false })
decode_car (c ∷ doc) (some o) =
    ok (record { obj = some (record o { text = c ∷ doc }); is_into = true })

-- The documents are the texts of the cars, all of a version that is not known if they are empty.
abbrev pub library : Library Bool Car
library = record {
  decode = λ strict convertor s default versioner doc into. decode_car doc into;
  is_not_registered_error = λ e. false;
  type_meta = λ doc. ok (bytes "g/v9", bytes "Car");
  parse_group_version = λ text. ok (record { group = bytes "g"; version = bytes "v9" });
}

abbrev pub codecs : Codecs Unit Car
codecs = record {
  info = λ ct. some (record { serializer = tt; pretty_serializer = none });
  encode = λ c to gv o. ok (gv.version ++ o.text);
}

abbrev pub log_sink : FrameSink (List Str)
log_sink = record {
  write = λ text w. (w ++ (text ∷ []), ok tt);
  content_type = bytes "application/yaml";
}

-- Every call reads one text.
abbrev pub read_text : ℕ → List Str → List Str × Str × Option Error
read_text size [] = ([], [], some eof)
read_text size (text ∷ texts) = (texts, text, none)

abbrev pub texts_source : Source (List Str)
texts_source = record { read = read_text; close = λ texts. [] }

abbrev pub texts_reader : List Str → FrameReader (List Str)
texts_reader texts = record { rc = texts; buf_size = 8; max_frame_size = 8 }

-- What the theorems suppose of these libraries.
kind_of_copy :
    (dst src written : Car)
    → ok (record dst { text = src.text }) ≡ ok written
    → gvk_for_object cars garage true written ≡ gvk_for_object cars garage true dst
unfolding gvk_for_object
kind_of_copy dst src written h = ap (λ r. r >>= λ o. gvk_for_object cars garage true o) (sym h)

pub cars-IsTyped : IsTyped cars garage true
unfolding gvk_for_object
cars-IsTyped = record {
  get_set = λ g o. refl;
  new_kind = λ g o made. ground (arith, made);
  convert_to_kind = λ src hub written h. kind_of_copy hub src written h;
  convert_from_kind = λ dst hub written h. kind_of_copy dst hub written h;
}

pub cars-KeepsHubs : KeepsHubs cars garage true
cars-KeepsHubs = record {
  set_hub = λ g o. refl;
  set_convertible = λ g o. refl;
  hub_only = λ src hub written is h. (ground (arith, h, is), ground (arith, h, is));
}

pub car-IsSpoke : (text : Str) → IsSpoke cars garage true (new_car v1 text) v1 (new_car v1 [])
unfolding gvk_for_object
car-IsSpoke text = record {
  convertible = refl;
  no_hub = refl;
  src_kind = refl;
  has_kind = refl;
  made = refl;
  dst_convertible = refl;
  dst_path = refl;
  back = λ hub written target h.
      ap (λ r. r >>= λ w. cars.convert_from (new_car v1 []) (cars.set_gvk target w)) (sym h);
}

pub cars-KeepsAnnotations : KeepsAnnotations cars
unfolding is_meta
cars-KeepsAnnotations = record { get_set = λ a o. refl; set_meta = λ a o. refl }

pub trees-Decodes : Decodes cars trees
trees-Decodes = record { decode_encode = λ text. refl }

no_error :
    (text : Str) (e : Error)
    → (trees.decode_string text >>= trees.parse) ≡ err e
    → is_no_stored_comments e ≡ false
unfolding is_no_stored_comments
no_error [] e h = ground (arith, h)
no_error (c ∷ text) e h = absurd (ground (arith, h))

pub trees-IsForeign : IsForeign cars trees cars-KeepsAnnotations
trees-IsForeign = record { other_error = λ text e h. no_error text e h }

pub garage-IsCoherent : (s : Bool) → IsCoherent cars garage trees library s
garage-IsCoherent s = record {
  known_version = λ g x h. ground (arith, h);
  known_group = λ g h. ground (arith, h);
}

pub log_sink-IsLog : IsLog log_sink (λ w. w)
log_sink-IsLog = record { logged = λ text w h. refl }

abbrev pub first_error : List (Option Error) → Option Error
first_error [] = none
first_error (none ∷ errs) = first_error errs
first_error (some e ∷ errs) = some e

first_error_iff : (errs : List (Option Error)) → (first_error errs ≡ none) ↔ AllNil errs
first_error_iff [] = (λ h. tt, λ h. refl)
first_error_iff (none ∷ errs) =
    (λ h. (refl, (first_error_iff errs).0 h), λ h. (first_error_iff errs).1 h.1)
first_error_iff (some e ∷ errs) = (λ h. ground (arith, h), λ h. h.0)

pub first_error-IsAggregate : IsAggregate first_error
first_error-IsAggregate = record { nil_iff = first_error_iff }

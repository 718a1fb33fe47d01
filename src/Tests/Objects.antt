-- ===== src/Tests/Objects.antt =====
-- Keys, identifiers, filters and partial objects at concrete inputs.
use libgitops.Prelude.{
  true, false, ◌≡◌, ◌≢◌, ◌↔◌, ◌⊎◌, refl, arith, none, some, [], ◌∷◌, map, all, keep_if,
}
use libgitops.Prelude.Text.{bytes, Free}
use libgitops.Prelude.Outcome.{ok, err, ◌>>=◌, invalid_filter_params}
use libgitops.FilePath.{slash}
use libgitops.Key.{Gvk, equals_gvk}
use libgitops.Key.Laws.{equals_gvk_iff}
use libgitops.Runtime.{Object, metav1_name_identify}
use libgitops.Runtime.Identifiers.{metav1_name_identify-injective}
use libgitops.Filter.{
  NameFilter, UidFilter, name_filter, uid_filter, make_list_options, run_filters,
}
use libgitops.Filter.Laws.{
  by_name, by_uid, option_of, accepts, Selects, name_filter_lem, uid_filter_lem,
  make_list_options-run_filters,
}
use libgitops.Storage.Partial.{decode_partial_objects, decode_partial_objects-default}
use libgitops.Tests.Samples.{car_kind, car, car_serializer}

abbrev car_v2 : Gvk
car_v2 = record car_kind { version = bytes "v2" }

equals_gvk_iff_example : (equals_gvk car_kind car_v2 false ≡ true) ↔ (
    (car_kind.kind ≡ car_v2.kind)
    × (car_kind.group ≡ car_v2.group)
    × (false ≡ true → car_kind.version ≡ car_v2.version))
equals_gvk_iff_example = equals_gvk_iff car_kind car_v2 false

default-Free : Free slash (bytes "default")
default-Free = ground arith

car_identified : metav1_name_identify car ≡ some (bytes "default/foo")
unfolding metav1_name_identify
car_identified = refl

abbrev old_car : Object
old_car = record car { uid = bytes "old" }

old_car_identified : metav1_name_identify old_car ≡ some (bytes "default/foo")
unfolding metav1_name_identify
old_car_identified = refl

metav1_name_identify-injective_example :
    (car.namespace ≡ old_car.namespace) × (car.name ≡ old_car.name)
metav1_name_identify-injective_example =
    metav1_name_identify-injective car old_car (bytes "default/foo") default-Free default-Free
      car_identified old_car_identified

abbrev begins_with_fo : NameFilter
begins_with_fo = record { name = bytes "fo"; namespace = bytes "default"; match_prefix = true }

abbrev of_uid : UidFilter
of_uid = record { uid = bytes "599"; match_prefix = true }

name_filter_lem_example :
    (begins_with_fo.name ≡ [] → name_filter begins_with_fo car ≡ err invalid_filter_params)
    × (begins_with_fo.name ≢ []
        → (name_filter begins_with_fo car ≡ ok true) ↔ (
            ((begins_with_fo.namespace ≡ []) ⊎ (begins_with_fo.namespace ≡ car.namespace))
            × Selects true begins_with_fo.name car.name))
name_filter_lem_example = name_filter_lem begins_with_fo car

uid_filter_lem_example :
    (of_uid.uid ≡ [] → uid_filter of_uid car ≡ err invalid_filter_params)
    × (of_uid.uid ≢ [] → (uid_filter of_uid car ≡ ok true) ↔ Selects true of_uid.uid car.uid)
uid_filter_lem_example = uid_filter_lem of_uid car

make_list_options-run_filters_example :
    (make_list_options (map option_of (by_name begins_with_fo ∷ by_uid of_uid ∷ [])) >>= λ filters.
    run_filters filters (car ∷ old_car ∷ []))
    ≡ ok (
        keep_if
          (λ o. all (λ c. accepts c o) (by_name begins_with_fo ∷ by_uid of_uid ∷ []))
          (car ∷ old_car ∷ []))
make_list_options-run_filters_example =
    make_list_options-run_filters (by_name begins_with_fo ∷ by_uid of_uid ∷ []) (car ∷ old_car ∷ [])
      ((λ h. cc), ((λ h. cc), tt))

decode_partial_objects-default_example :
    decode_partial_objects car_serializer (bytes "x") false (some car_v2)
    ≡ decode_partial_objects car_serializer (bytes "x") false none
decode_partial_objects-default_example =
    decode_partial_objects-default car_serializer (bytes "x") false car_v2

-- ===== src/Filter.antt =====
-- pkg/filter: filters on objects, on lists of objects, and the options that collect them.
pub mod Laws
use libgitops.Prelude.{Bool, true, false, not, ◌&&◌, List, [], ◌∷◌, ◌++◌, if◌then◌else◌}
use libgitops.Prelude.Text.{Str, str_eq, is_empty, has_prefix}
use libgitops.Prelude.Outcome.{Outcome, ok, err, panic, ◌>>=◌, ◌>>◌, invalid_filter_params}
use libgitops.Runtime.{Object}

abbrev pub ObjectFilter : Type 0
ObjectFilter = Object → Outcome Bool

abbrev pub ListFilter : Type 0
ListFilter = List Object → Outcome (List Object)

pub record NameFilter : Type 0 where
  pub name : Str
  pub namespace : Str
  pub match_prefix : Bool

pub record UidFilter : Type 0 where
  pub uid : Str
  pub match_prefix : Bool

-- `NameFilter.Filter`
unfoldable pub name_filter : NameFilter → ObjectFilter
name_filter f o =
    if is_empty f.name
    then err invalid_filter_params
    else if not (is_empty f.namespace) && not (str_eq f.namespace o.namespace)
    then ok false
    else if f.match_prefix
    then ok (has_prefix o.name f.name)
    else ok (str_eq f.name o.name)

-- `UIDFilter.Filter`
unfoldable pub uid_filter : UidFilter → ObjectFilter
uid_filter f o =
    if is_empty f.uid
    then err invalid_filter_params
    else if f.match_prefix
    then ok (has_prefix o.uid f.uid)
    else ok (str_eq f.uid o.uid)

-- `objectToListFilter.Filter`, the loop over the objects.
unfoldable pub object_to_list_filter : ObjectFilter → ListFilter
object_to_list_filter of [] = ok []
object_to_list_filter of (o ∷ objs) =
    let rest = object_to_list_filter of objs in
    do match ← of o; retarr ← rest; ok (if match then o ∷ retarr else retarr)

-- `ListOptions`, which holds the filters alone.
abbrev pub ListOptions : Type 0
ListOptions = List ListFilter

-- `ListOption`
abbrev pub ListOption : Type 0
ListOption = ListOptions → Outcome ListOptions

-- `NameFilter.ApplyToListOptions`
unfoldable pub apply_name_filter : NameFilter → ListOption
apply_name_filter f target = ok (target ++ object_to_list_filter (name_filter f) ∷ [])

-- `UIDFilter.ApplyToListOptions`
unfoldable pub apply_uid_filter : UidFilter → ListOption
apply_uid_filter f target = ok (target ++ object_to_list_filter (uid_filter f) ∷ [])

apply_options : List ListOption → ListOption
apply_options [] o = ok o
apply_options (opt ∷ opts) o = do o' ← opt o; apply_options opts o'

unfoldable pub make_list_options : List ListOption → Outcome ListOptions
unfolding apply_options
make_list_options opts = apply_options opts []

-- The loop of `GenericStorage.List` over the filters.
unfoldable pub run_filters : List ListFilter → ListFilter
run_filters [] objs = ok objs
run_filters (f ∷ filters) objs = do objs' ← f objs; run_filters filters objs'

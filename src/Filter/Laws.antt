-- ===== src/Filter/Laws.antt =====
-- What the filters accept, and what a chain of them leaves.
use libgitops.Prelude.{
  Bool, true, false, ◌≡◌, ◌≢◌, ◌∙◌, ◌↔◌, ◌⊎◌, inl, inr, ap, refl, sym, List, [], ◌∷◌, ◌++◌, arith,
  map, all, keep_if, append_assoc, ◌&&◌, append-nil, subst, if◌then◌else◌,
}
use libgitops.Prelude.Text.{Str, str_eq, str_eq_iff, is_empty, has_prefix}
use libgitops.Prelude.Outcome.{ok, err, panic, ◌>>=◌, invalid_filter_params}
use libgitops.Runtime.{Object}
use libgitops.Filter.{
  ObjectFilter, ListFilter, ListOption, NameFilter, UidFilter, name_filter, uid_filter,
  object_to_list_filter, apply_name_filter, apply_uid_filter, apply_options, make_list_options,
  run_filters,
}

has_prefix-append : (s p : Str) → has_prefix s p ≡ true → (rest : Str) × (s ≡ p ++ rest)
unfolding has_prefix
has_prefix-append s [] h = (s, refl)
has_prefix-append [] (d ∷ p) h = ground arith
has_prefix-append (c ∷ s) (d ∷ p) h =
    let (rest, e) = has_prefix-append s p (ground arith) in (rest, ground (arith, e))

append-has_prefix : (p rest : Str) → has_prefix (p ++ rest) p ≡ true
unfolding has_prefix
append-has_prefix [] rest = refl
append-has_prefix (d ∷ p) rest = ground (arith, append-has_prefix p rest)

-- The wanted text is the given one or, for a prefix match, the beginning of it.
abbrev pub Selects : Bool → Str → Str → Type 0
Selects match_prefix wanted given =
    (wanted ≡ given) ⊎ ((match_prefix ≡ true) × ((rest : Str) × (given ≡ wanted ++ rest)))

Selects-has_prefix :
    {wanted given : Str} → Selects true wanted given → has_prefix given wanted ≡ true
Selects-has_prefix {wanted} {given} (inl e) =
    subst (λ g. has_prefix g wanted ≡ true) (append-nil wanted ∙ e) (append-has_prefix wanted [])
Selects-has_prefix {wanted} (inr (_, (rest, e))) = rw e (append-has_prefix wanted rest)

Selects-str_eq : {wanted given : Str} → Selects false wanted given → str_eq wanted given ≡ true
Selects-str_eq {wanted} {given} (inl e) = (str_eq_iff wanted given).1 e
Selects-str_eq (inr (e, _)) = cc

match_test_iff :
    (match_prefix : Bool) (wanted given : Str)
    → ((if match_prefix then has_prefix given wanted else str_eq wanted given) ≡ true)
      ↔ Selects match_prefix wanted given
match_test_iff true wanted given =
    (λ h. inr (refl, has_prefix-append given wanted h), λ s. Selects-has_prefix s)
match_test_iff false wanted given =
    (λ h. inl ((str_eq_iff wanted given).0 h), λ s. Selects-str_eq s)

is_empty_iff : (s : Str) → (is_empty s ≡ true) ↔ (s ≡ [])
is_empty_iff [] = (λ h. refl, λ h. refl)
is_empty_iff (c ∷ s) = (λ h. cc, λ h. cc)

-- A name filter with a name accepts exactly the objects whose namespace is the filter's, if that is
-- set, and whose name is the filter's or, for a prefix match, begins with it. Without a name it is an
-- error on every object.
pub name_filter_lem :
    (f : NameFilter) (o : Object)
    → (f.name ≡ [] → name_filter f o ≡ err invalid_filter_params)
      × (f.name ≢ []
          → (name_filter f o ≡ ok true) ↔ (
              ((f.namespace ≡ []) ⊎ (f.namespace ≡ o.namespace))
              × Selects f.match_prefix f.name o.name))
unfolding name_filter
name_filter_lem f o =
    let name = is_empty_iff f.name in
    let namespace = is_empty_iff f.namespace in
    let same = str_eq_iff f.namespace o.namespace in
    let selects = match_test_iff f.match_prefix f.name o.name in
    (
      λ e. ground (arith, name, e),
      λ set. (
        λ h. (ground (arith, name, namespace, same, h), selects.0 (ground (arith, name, h))),
        λ (at_namespace, s). ground (arith, name, namespace, same, at_namespace, selects.1 s),
      ),
    )

-- A UID filter with a UID accepts exactly the objects whose UID is the filter's or, for a prefix
-- match, begins with it. Without a UID it is an error on every object.
pub uid_filter_lem :
    (f : UidFilter) (o : Object)
    → (f.uid ≡ [] → uid_filter f o ≡ err invalid_filter_params)
      × (f.uid ≢ [] → (uid_filter f o ≡ ok true) ↔ Selects f.match_prefix f.uid o.uid)
unfolding uid_filter
uid_filter_lem f o =
    let uid = is_empty_iff f.uid in
    let selects = match_test_iff f.match_prefix f.uid o.uid in
    (
      λ e. ground (arith, uid, e),
      λ set. (λ h. selects.0 (ground (arith, uid, h)), λ s. ground (arith, uid, selects.1 s)),
    )

-- A filter that a caller can pass to `List` and `Find`.
pub data Choice : Type 0 where
  by_name : NameFilter → Choice
  by_uid : UidFilter → Choice

abbrev pub option_of : Choice → ListOption
option_of (by_name f) = apply_name_filter f
option_of (by_uid f) = apply_uid_filter f

abbrev pub filter_of : Choice → ObjectFilter
filter_of (by_name f) = name_filter f
filter_of (by_uid f) = uid_filter f

-- The required field is set.
abbrev pub IsUsable : Choice → Type 0
IsUsable (by_name f) = f.name ≢ []
IsUsable (by_uid f) = f.uid ≢ []

abbrev pub AllUsable : List Choice → Type 0
AllUsable [] = Unit
AllUsable (c ∷ cs) = IsUsable c × AllUsable cs

-- What the filter decides about an object.
abbrev pub accepts : Choice → Object → Bool
accepts c o = elim (filter_of c o) [ ok b ↦ b | err e ↦ false | panic ↦ false ]

filter_of-accepts : (c : Choice) (o : Object) → IsUsable c → filter_of c o ≡ ok (accepts c o)
unfolding name_filter uid_filter
filter_of-accepts (by_name f) o h = ground (arith, is_empty_iff f.name, h)
filter_of-accepts (by_uid f) o h = ground (arith, is_empty_iff f.uid, h)

object_to_list_filter-keep_if :
    (c : Choice) (objs : List Object)
    → IsUsable c
    → object_to_list_filter (filter_of c) objs ≡ ok (keep_if (accepts c) objs)
unfolding object_to_list_filter
object_to_list_filter-keep_if c [] h = refl
object_to_list_filter-keep_if c (o ∷ objs) h =
    rw (filter_of-accepts c o h, object_to_list_filter-keep_if c objs h) refl

keep_if-keep_if :
    (p q : Object → Bool) (objs : List Object)
    → keep_if q (keep_if p objs) ≡ keep_if (λ o. p o && q o) objs
keep_if-keep_if p q [] = refl
keep_if-keep_if p q (o ∷ objs) = ground (arith, keep_if-keep_if p q objs)

keep_if-true : (objs : List Object) → objs ≡ keep_if (λ o. true) objs
keep_if-true [] = refl
keep_if-true (o ∷ objs) = ap (λ r. o ∷ r) (keep_if-true objs)

abbrev filters_of : List Choice → List ListFilter
filters_of [] = []
filters_of (c ∷ cs) = object_to_list_filter (filter_of c) ∷ filters_of cs

apply_options-filters_of :
    (cs : List Choice) (target : List ListFilter)
    → apply_options (map option_of cs) target ≡ ok (target ++ filters_of cs)
unfolding apply_options apply_name_filter apply_uid_filter
apply_options-filters_of [] target = ap ok (sym (append-nil target))
apply_options-filters_of (by_name f ∷ cs) target =
    apply_options-filters_of cs (target ++ object_to_list_filter (name_filter f) ∷ [])
    ∙ ap ok (append_assoc target (object_to_list_filter (name_filter f) ∷ []) (filters_of cs))
apply_options-filters_of (by_uid f ∷ cs) target =
    apply_options-filters_of cs (target ++ object_to_list_filter (uid_filter f) ∷ [])
    ∙ ap ok (append_assoc target (object_to_list_filter (uid_filter f) ∷ []) (filters_of cs))

run_filters-keep_if :
    (cs : List Choice) (objs : List Object)
    → AllUsable cs
    → run_filters (filters_of cs) objs ≡ ok (keep_if (λ o. all (λ c. accepts c o) cs) objs)
unfolding run_filters
run_filters-keep_if [] objs h = ap ok (keep_if-true objs)
run_filters-keep_if (c ∷ cs) objs h = rw (object_to_list_filter-keep_if c objs h.0) (
    run_filters-keep_if cs (keep_if (accepts c) objs) h.1
    ∙ ap ok (keep_if-keep_if (accepts c) (λ o. all (λ c. accepts c o) cs) objs))

-- The options of usable filters make a list of filters that never fails.
pub usable_filters :
    (cs : List Choice)
    → AllUsable cs
    → (filters : List ListFilter) × (make_list_options (map option_of cs) ≡ ok filters)
      × ((objs : List Object)
          → run_filters filters objs ≡ ok (keep_if (λ o. all (λ c. accepts c o) cs) objs))
unfolding make_list_options
usable_filters cs h =
    (filters_of cs, apply_options-filters_of cs [], λ objs. run_filters-keep_if cs objs h)

-- A chain of name and UID filters whose required fields are set is collected and run without an
-- error, and leaves exactly the objects that every filter accepts, in their order.
pub make_list_options-run_filters :
    (cs : List Choice) (objs : List Object)
    → AllUsable cs
    → (make_list_options (map option_of cs) >>= λ filters. run_filters filters objs)
      ≡ ok (keep_if (λ o. all (λ c. accepts c o) cs) objs)
unfolding make_list_options
make_list_options-run_filters cs objs h =
    rw (apply_options-filters_of cs []) (run_filters-keep_if cs objs h)

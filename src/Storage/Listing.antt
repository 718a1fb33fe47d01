-- ===== src/Storage/Listing.antt =====
-- `List`, `Find` and the partial objects of `GenericStorage`.
use libgitops.Prelude.{
  true, false, ◌≡◌, inl, inr, arith, ap, subst, refl, List, [], ◌∷◌, map, all, keep_if, length, ◌≤◌,
  ◌↔◌,
}
use libgitops.Prelude.Outcome.{
  Outcome, Outcome-cases, Done, ok, err, panic, ◌>>=◌, not_found, ambiguous_find,
}
use libgitops.Key.{Gvk, ObjectKey}
use libgitops.Runtime.{Object}
use libgitops.Filter.{ListOption}
use libgitops.Filter.Laws.{Choice, option_of, accepts, AllUsable, usable_filters}
use libgitops.Storage.{GenericStorage, list, find, one_of, walk_kind, walk_keys, decode, get}

one_of_lem :
    (listed : Outcome (List Object))
    → ((o : Object) → (listed >>= one_of) ≡ ok o → listed ≡ ok (o ∷ []))
      × ((o : Object) → listed ≡ ok (o ∷ []) → (listed >>= one_of) ≡ ok o)
      × (listed ≡ ok [] → (listed >>= one_of) ≡ err not_found)
      × ((objs : List Object)
          → listed ≡ ok objs
          → 2 ≤ length objs
          → (listed >>= one_of) ≡ err ambiguous_find)
unfolding one_of
one_of_lem (err e) = (λ o h. cc, λ o h. cc, λ h. cc, λ objs h l. cc)
one_of_lem panic = (λ o h. cc, λ o h. cc, λ h. cc, λ objs h l. cc)
one_of_lem (ok []) = (λ o h. cc, λ o h. cc, λ h. refl, λ objs h l. ground (arith, h, l))
one_of_lem (ok (o ∷ [])) =
    (λ o h. ground arith, λ o h. ground arith, λ h. cc, λ objs h l. ground (arith, h, l))
one_of_lem (ok (o ∷ p ∷ objs)) = (λ o h. cc, λ o h. ground arith, λ h. cc, λ objs h l. refl)

module _ {W : Type 0} (s : GenericStorage W) where
  -- Find returns an object exactly when List returns that object alone. With no match its error is
  -- that nothing was found, with two or more that the request is ambiguous, and the errors of List
  -- are passed on.
  pub find_lem :
      (w : W) (kind : Gvk) (opts : List ListOption)
      → ((o : Object) → find s w kind opts ≡ ok o → list s w kind opts ≡ ok (o ∷ []))
        × ((o : Object) → list s w kind opts ≡ ok (o ∷ []) → find s w kind opts ≡ ok o)
        × (list s w kind opts ≡ ok [] → find s w kind opts ≡ err not_found)
        × ((objs : List Object)
            → list s w kind opts ≡ ok objs
            → 2 ≤ length objs
            → find s w kind opts ≡ err ambiguous_find)
  unfolding find
  find_lem w kind opts = one_of_lem (list s w kind opts)

  -- The objects that a walk over the keys makes: a key that does not exist is passed over, and every
  -- other one gives the object that `Get` returns.
  pub data Walked (w : W) : List ObjectKey → List Object → Type 0 where
    done : Walked w [] []
    skip :
        {key : ObjectKey} {keys : List ObjectKey} {objs : List Object}
        → s.raw.exists w key ≡ ok false
        → Walked w keys objs
        → Walked w (key ∷ keys) objs
    visit :
        {key : ObjectKey} {keys : List ObjectKey} {obj : Object} {objs : List Object}
        → s.raw.exists w key ≡ ok true
        → get s w key ≡ ok obj
        → Walked w keys objs
        → Walked w (key ∷ keys) (obj ∷ objs)

  Walked-walk_keys :
      (w : W) (keys : List ObjectKey) (objs : List Object)
      → Walked w keys objs
      → walk_keys s w (decode s w) keys ≡ (objs, ok tt)
  unfolding walk_keys get
  Walked-walk_keys w [] objs done = refl
  Walked-walk_keys w (key ∷ keys) objs (skip e rest) =
      ground (arith, e, Walked-walk_keys w keys objs rest)
  Walked-walk_keys w (key ∷ keys) (obj ∷ objs) (visit e g rest) =
      ground (arith, e, g, Walked-walk_keys w keys objs rest)

  walk_keys-Walked :
      (w : W) (keys : List ObjectKey) (objs : List Object)
      → walk_keys s w (decode s w) keys ≡ (objs, ok tt)
      → Walked w keys objs
  unfolding walk_keys get
  walk_keys-Walked w [] objs h =
      subst (λ o. Walked w [] o) (ap (λ (p : List Object × Done). p.0) h) done
  walk_keys-Walked w (key ∷ keys) objs h =
      let rest = walk_keys s w (decode s w) keys in
      elim (Outcome-cases (s.raw.exists w key)) [
        | inr (inl (x, e)) ↦ absurd (ground (arith, e, h))
        | inr (inr e) ↦ absurd (ground (arith, e, h))
        | inl (false, e) ↦ skip e (walk_keys-Walked w keys objs (ground (arith, e, h)))
        | inl (true, e) ↦ elim (Outcome-cases (get s w key)) [
          | inr (inl (x, g)) ↦ absurd (ground (arith, e, g, h))
          | inr (inr g) ↦ absurd (ground (arith, e, g, h))
          | inl (obj, g) ↦
              subst (λ o. Walked w (key ∷ keys) o) (ground (arith, e, g, h))
                (visit e g (walk_keys-Walked w keys rest.0 (ground (arith, e, g, h))))
        ]
      ]

  -- List with name and UID filters whose required fields are set returns a list exactly when the raw
  -- storage lists the keys and each key that exists can be got; the list is then that of the got
  -- objects that every filter accepts, in the order of the keys.
  pub list_lem :
      (w : W) (kind : Gvk) (choices : List Choice) (objs : List Object)
      → AllUsable choices
      → (list s w kind (map option_of choices) ≡ ok objs) ↔ (
          (keys : List ObjectKey) × (got : List Object) × (s.raw.list w kind ≡ ok keys)
          × Walked w keys got
          × (objs ≡ keep_if (λ o. all (λ c. accepts c o) choices) got))
  unfolding list walk_kind
  list_lem w kind choices objs usable =
      let (filters, made, run) = usable_filters choices usable in
      (
        λ h. elim (Outcome-cases (s.raw.list w kind)) [
          | inr (inl (x, e)) ↦ absurd (ground (arith, made, e, h))
          | inr (inr e) ↦ absurd (ground (arith, made, e, h))
          | inl (keys, e) ↦
              let got = (walk_keys s w (decode s w) keys).0 in
              (
                keys,
                got,
                e,
                walk_keys-Walked w keys got (ground (arith, made, e, h)),
                ground (arith, made, e, h, run got),
              )
        ],
        λ (keys, got, e, walked, same).
            ground (arith, made, e, run got, Walked-walk_keys w keys got walked, same),
      )

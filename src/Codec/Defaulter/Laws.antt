-- ===== src/Codec/Defaulter/Laws.antt =====
-- pkg/serializer/defaulter.go: when Default has no error, and what a new object is.
use libgitops.Prelude.{
  ◌≡◌, refl, ap, subst, ◌↔◌, false, Option, none, some, List, [], ◌∷◌, arith, inl, inr,
}
use libgitops.Prelude.Text.{str_eq}
use libgitops.Prelude.Outcome.{Outcome-cases, bind-ok, ok, Error}
use libgitops.Key.{Gvk}
use libgitops.Codec.{Objects, Scheme, api_version_internal}
use libgitops.Codec.Convertor.Laws.{IsTyped}
use libgitops.Codec.Defaulter.{run_defaulting, default_each, default, new_defaulted_object}

ok-injective : {A : Type 0} (a b : A) → ok a ≡ ok b → a ≡ b
ok-injective a b h = ground (arith, h)

-- `errors.NewAggregate` is nil if every error is, and only then.
abbrev pub AllNil : List (Option Error) → Type 0
AllNil [] = Unit
AllNil (e ∷ errs) = (e ≡ none) × AllNil errs

pub record IsAggregate (new_aggregate : List (Option Error) → Option Error) : Type 0 where
  pub nil_iff : (errs : List (Option Error)) → (new_aggregate errs ≡ none) ↔ AllNil errs

module _ {S O : Type 0} (api : Objects O) (scheme : Scheme S O) (s : S) where
  -- Each object of the second list is the one of the first, defaulted.
  pub data AllDefaulted : List O → List O → Type 0 where
    none_left : AllDefaulted [] []
    one_more :
        {obj out : O} {objs outs : List O}
        → run_defaulting api scheme s obj ≡ ok out
        → AllDefaulted objs outs
        → AllDefaulted (obj ∷ objs) (out ∷ outs)

  default_each-AllNil :
      (objs : List O) (r : List O × List (Option Error))
      → default_each api scheme s objs ≡ ok r
      → AllNil r.1
      → AllDefaulted objs r.0
  unfolding default_each
  default_each-AllNil [] r h =
      subst (λ q. AllNil q.1 → AllDefaulted [] q.0) (ok-injective _ r h) (λ nil. none_left)
  default_each-AllNil (obj ∷ objs) r h =
      let Holds =
        λ (q : List O × List (Option Error)). AllNil q.1 → AllDefaulted (obj ∷ objs) q.0 in
      elim (Outcome-cases (run_defaulting api scheme s obj)) [
        | inl (out, ran) ↦
            let (q, rest, last) =
              bind-ok {B = List O × List (Option Error)} (default_each api scheme s objs)
                (λ q. ok (out ∷ q.0, none ∷ q.1)) r (ground (arith, ran, h)) in
            subst Holds (ok-injective _ r last)
              (λ nil. one_more ran (default_each-AllNil objs q rest nil.1))
        | inr (inl (e, ran)) ↦
            let (q, rest, last) =
              bind-ok {B = List O × List (Option Error)} (default_each api scheme s objs)
                (λ q. ok (obj ∷ q.0, some e ∷ q.1)) r (ground (arith, ran, h)) in
            subst Holds (ok-injective _ r last) (λ nil. absurd (ground (arith, nil.0)))
        | inr (inr ran) ↦ absurd (ground (arith, ran, h))
      ]

  AllDefaulted-default_each :
      (objs outs : List O)
      → AllDefaulted objs outs
      → (errs : List (Option Error)) × (default_each api scheme s objs ≡ ok (outs, errs))
        × AllNil errs
  unfolding default_each
  AllDefaulted-default_each [] [] none_left = ([], refl, tt)
  AllDefaulted-default_each [] (out ∷ outs) x = elim x [ ]
  AllDefaulted-default_each (obj ∷ objs) [] x = elim x [ ]
  AllDefaulted-default_each (obj ∷ objs) (out ∷ outs) (one_more ran all) =
      let (errs, rest, nil) = AllDefaulted-default_each objs outs all in
      (none ∷ errs, ground (arith, ran, rest), (refl, nil))

  module _ (new_aggregate : List (Option Error) → Option Error)
      (is : IsAggregate new_aggregate) where
    -- Default has no error if and only if the defaulting of every object has none, and the objects
    -- are then the defaulted ones.
    pub default-AllDefaulted :
        (objs outs : List O)
        → (default api scheme s new_aggregate objs ≡ ok (outs, none)) ↔ AllDefaulted objs outs
    unfolding default
    default-AllDefaulted objs outs = (
      λ h.
          let (r, ran, last) =
            bind-ok {B = List O × Option Error} (default_each api scheme s objs)
              (λ r. ok (r.0, new_aggregate r.1)) (outs, none) h in
          let same = ok-injective _ (outs, none) last in
          subst (AllDefaulted objs) (ap (λ q. q.0) same)
            (default_each-AllNil objs r ran ((is.nil_iff r.1).0 (ap (λ q. q.1) same))),
      λ all.
          let (errs, ran, nil) = AllDefaulted-default_each objs outs all in
          ground (arith, ran, (is.nil_iff errs).1 nil),
    )

    -- A new object of an external type is what the scheme makes and defaults; the defaulting
    -- functions for it are those of that version alone.
    pub new_defaulted_object-external :
        IsTyped api scheme s
        → (gvk : Gvk) (obj : O) → scheme.new gvk s ≡ ok obj
        → str_eq gvk.version api_version_internal ≡ false
        → new_defaulted_object api scheme s new_aggregate gvk ≡ ok (scheme.default obj s)
    unfolding new_defaulted_object default default_each run_defaulting
    new_defaulted_object-external typed gvk obj made external =
        ground (
          arith,
          made,
          external,
          typed.new_kind gvk obj made,
          (is.nil_iff (none ∷ [])).1 (refl, tt),
        )

-- ===== src/Codec/Convertor/Targets.antt =====
-- pkg/serializer/convertor.go: the hub that a conversion finds, and the way there and back.
use libgitops.Prelude.{
  ◌≡◌, ◌∙◌, sym, ap, true, false, not, ◌||◌, some, List, [], ◌∷◌, arith, inl, inr, Bool-cases,
}
use libgitops.Prelude.Text.{str_eq, str_eq_iff, is_empty}
use libgitops.Prelude.Outcome.{Outcome-cases, bind-ok, ok, ◌>>=◌, cause_convert_to}
use libgitops.Key.{Gvk}
use libgitops.Codec.{
  Objects, Scheme, internal_versioner, to_version, with_kind, group_version_of, gvk_for_object,
}
use libgitops.Codec.Convertor.{
  same_group_kind, as_crd_error, validate_convertible, convert_from_hub, convert, hub_among,
  find_hub_type, convert_to_hub, convert_to_group_version, convert_crd, convert_to_version,
}
use libgitops.Codec.Convertor.Laws.{IsTyped, as_crd_error-ok, populate_gvk_lem}

module _ {S O : Type 0} (api : Objects O) (scheme : Scheme S O) (s : S) where
  -- A new hub of another version of the kind.
  pub record IsHubFor (current : Gvk) (hub : O) (target : Gvk) : Type 0 where
    pub same_kind : same_group_kind target current ≡ true
    pub other_version : str_eq target.version current.version ≡ false
    pub made : scheme.new target s ≡ ok hub
    pub hub_made : api.is_hub hub ≡ true

  hub_among-IsHubFor :
      (current : Gvk) (gvks : List Gvk) (hub : O) (target : Gvk)
      → hub_among api scheme s current gvks ≡ ok (hub, target)
      → IsHubFor current hub target
  unfolding hub_among
  hub_among-IsHubFor current [] hub target h = absurd (ground (arith, h))
  hub_among-IsHubFor current (gvk ∷ gvks) hub target h =
      elim (Bool-cases (not (same_group_kind gvk current) || str_eq gvk.version current.version)) [
        | inl skip ↦ hub_among-IsHubFor current gvks hub target (ground (arith, skip, h))
        | inr keep ↦ elim (Outcome-cases (scheme.new gvk s)) [
          | inl (o, made) ↦ elim (Bool-cases (api.is_hub o)) [
            | inl is ↦ record {
              same_kind = ground (arith, keep, made, is, h);
              other_version = ground (arith, keep, made, is, h);
              made = ground (arith, keep, made, is, h);
              hub_made = ground (arith, keep, made, is, h);
            }
            | inr is_not ↦
                hub_among-IsHubFor current gvks hub target (ground (arith, keep, made, is_not, h))
          ]
          | inr (inl (e, made)) ↦
              hub_among-IsHubFor current gvks hub target (ground (arith, keep, made, h))
          | inr (inr made) ↦ absurd (ground (arith, keep, made, h))
        ]
      ]

  -- Setting the type of an object, and writing to a hub, leave which of the two interfaces it has.
  pub record KeepsHubs : Type 0 where
    pub set_hub : (g : Gvk) (o : O) → api.is_hub (api.set_gvk g o) ≡ api.is_hub o
    pub set_convertible :
        (g : Gvk) (o : O) → api.is_convertible (api.set_gvk g o) ≡ api.is_convertible o
    pub hub_only :
        (src hub written : O)
        → api.is_hub hub ≡ true
        → api.convert_to src hub ≡ ok written
        → (api.is_hub written ≡ true) × (api.is_convertible written ≡ false)

  -- A Convertible of the type `g`, whose methods are inverse to one another where they succeed, and
  -- of whose type the scheme makes objects that can be converted.
  pub record IsSpoke (src : O) (g : Gvk) (dst : O) : Type 0 where
    pub convertible : api.is_convertible src ≡ true
    pub no_hub : api.is_hub src ≡ false
    pub src_kind : gvk_for_object api scheme s src ≡ ok g
    pub has_kind : is_empty g.kind ≡ false
    pub made : scheme.new g s ≡ ok dst
    pub dst_convertible : api.is_convertible dst ≡ true
    pub dst_path : scheme.has_conversion_path dst s ≡ ok true
    pub back :
        (hub written : O) (target : Gvk)
        → api.convert_to src hub ≡ ok written
        → api.convert_from dst (api.set_gvk target written) ≡ ok src

  -- What a conversion to the hub gives.
  record ToHub (src : O) (g : Gvk) (out : O) : Type 0 where
    hub : O
    written : O
    target : Gvk
    is_for : IsHubFor g hub target
    wrote : api.convert_to src hub ≡ ok written
    same_out : out ≡ api.set_gvk target written

  validate_convertible_lem :
      (o : O) (g : Gvk)
      → validate_convertible api scheme s o ≡ ok g
      → gvk_for_object api scheme s o ≡ ok g
  unfolding validate_convertible
  validate_convertible_lem o g h =
      let (g1, typed, rest) = bind-ok (gvk_for_object api scheme s o) _ g h in
      let (convertible, path, last) =
        bind-ok (as_crd_error _ g1 (scheme.has_conversion_path o s)) _ g rest in
      typed
      ∙ ap ok (elim (Bool-cases convertible) [
        | inl c ↦ ground (arith, c, last)
        | inr c ↦ absurd (ground (arith, c, last))
      ])

  -- The end of a conversion to a hub that was found.
  written-ToHub :
      (src out : O) (g : Gvk) (found : O × Gvk)
      → find_hub_type api scheme s g ≡ ok found
      → (do
        written ← as_crd_error cause_convert_to found.1 (api.convert_to src found.0)
        ok (api.set_gvk found.1 written))
        ≡ ok out
      → ToHub src g out
  unfolding find_hub_type
  written-ToHub src out g (hub, target) searched h =
      let (written, wrote, done) =
        bind-ok (as_crd_error _ target (api.convert_to src hub)) _ out h in
      record {
        hub = hub;
        written = written;
        target = target;
        is_for = hub_among-IsHubFor g (scheme.all_known_types s) hub target searched;
        wrote = as_crd_error-ok api scheme s _ target (api.convert_to src hub) written wrote;
        same_out = ground (arith, done);
      }

  convert_to_hub-ToHub :
      (src out : O) (g : Gvk)
      → gvk_for_object api scheme s src ≡ ok g
      → convert_to_hub api scheme s src ≡ ok out
      → ToHub src g out
  unfolding convert_to_hub
  convert_to_hub-ToHub src out g k h =
      let (g1, valid, rest) = bind-ok (validate_convertible api scheme s src) _ out h in
      let (found, searched, rest1) =
        bind-ok (as_crd_error _ _ (find_hub_type api scheme s g1)) _ out rest in
      let same : g1 ≡ g = ground (arith, validate_convertible_lem src g1 valid, k) in
      written-ToHub src out g found
        (ap (find_hub_type api scheme s) (sym same)
          ∙ as_crd_error-ok api scheme s _ _ _ found searched)
        rest1

  -- What the object that `ToHub` describes is.
  record AtHub (g : Gvk) (h : O) (target : Gvk) : Type 0 where
    hub : api.is_hub h ≡ true
    no_convertible : api.is_convertible h ≡ false
    hub_kind : gvk_for_object api scheme s h ≡ ok target
    kind_same : target.kind ≡ g.kind
    version_other : str_eq target.version g.version ≡ false

  known_type :
      (o : O) (g : Gvk)
      → api.get_gvk o ≡ g
      → is_empty g.kind ≡ false
      → gvk_for_object api scheme s o ≡ ok g
  unfolding gvk_for_object
  known_type o g k full = ground (arith, k, full)

  ToHub-AtHub :
      IsTyped api scheme s
      → KeepsHubs
      → (src dst h : O) (g : Gvk) → IsSpoke src g dst
      → (there : ToHub src g h) → AtHub g h there.target
  ToHub-AtHub typed keeps src dst h g spoke there =
      let is = keeps.hub_only src there.hub there.written there.is_for.hub_made there.wrote in
      let kind : there.target.kind ≡ g.kind =
        ground (arith, there.is_for.same_kind, str_eq_iff there.target.kind g.kind) in
      record {
        hub = ap api.is_hub there.same_out ∙ keeps.set_hub there.target there.written ∙ is.0;
        no_convertible =
            ap api.is_convertible there.same_out
            ∙ keeps.set_convertible there.target there.written
            ∙ is.1;
        hub_kind =
            known_type h there.target
              (ap api.get_gvk there.same_out ∙ typed.get_set there.target there.written)
              (ap is_empty kind ∙ spoke.has_kind);
        kind_same = kind;
        version_other = there.is_for.other_version;
      }

  -- From the hub into a new object of the type, by the inverse method.
  convert-IsSpoke :
      IsTyped api scheme s
      → (src dst h : O) (g target : Gvk) → IsSpoke src g dst
      → AtHub g h target
      → api.convert_from dst h ≡ ok src
      → convert api scheme s h dst ≡ ok (api.set_gvk g src)
  unfolding convert convert_from_hub validate_convertible as_crd_error
  convert-IsSpoke typed src dst h g target spoke at back = ground (
    arith,
    at.hub,
    at.no_convertible,
    spoke.dst_convertible,
    typed.new_kind g dst spoke.made,
    spoke.dst_path,
    back,
    populate_gvk_lem api scheme s src g spoke.src_kind,
  )

  back_at_group_version :
      (h dst out : O) (g target : Gvk)
      → AtHub g h target
      → scheme.new g s ≡ ok dst
      → convert api scheme s h dst ≡ ok out
      → convert_to_group_version api scheme s h (group_version_of g) ≡ ok out
  unfolding convert_to_group_version
  back_at_group_version h dst out g target at made converted =
      let new : scheme.new (with_kind (group_version_of g) target.kind) s ≡ ok dst =
        ap (λ k. scheme.new (with_kind (group_version_of g) k) s) at.kind_same ∙ made in
      ground (arith, at.hub_kind, at.version_other, new, converted)

  -- A Convertible that is converted to its hub, and then back to its own group version, is as it was
  -- before, with its type set, if its methods are inverse to one another.
  pub convert_to_version-roundtrip :
      IsTyped api scheme s
      → KeepsHubs
      → (src dst h : O) (g : Gvk) → IsSpoke src g dst
      → convert_to_version api scheme s true src (some internal_versioner) ≡ ok h
      → convert_to_version api scheme s true h (some (to_version (group_version_of g)))
        ≡ ok (api.set_gvk g src)
  unfolding convert_to_version convert_crd
  convert_to_version-roundtrip typed keeps src dst h g spoke there =
      let to_hub =
        convert_to_hub-ToHub src h g spoke.src_kind
          (ground (arith, spoke.convertible, spoke.no_hub, there)) in
      let at = ToHub-AtHub typed keeps src dst h g spoke to_hub in
      let back : api.convert_from dst h ≡ ok src =
        ap (api.convert_from dst) to_hub.same_out
        ∙ spoke.back to_hub.hub to_hub.written to_hub.target to_hub.wrote in
      ground (
        arith,
        at.hub,
        at.no_convertible,
        back_at_group_version h dst (api.set_gvk g src) g to_hub.target at spoke.made
            (convert-IsSpoke typed src dst h g to_hub.target spoke at back),
      )

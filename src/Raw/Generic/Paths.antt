-- ===== src/Raw/Generic/Paths.antt =====
-- `GetKey` reads back the paths that `keyPath` computes.
use libgitops.Prelude.{
  subst, sym, ◌⊎◌, inl, inr, Bool, true, false, List, [], ◌∷◌, ◌++◌, ◌≡◌, ◌∙◌, ap, refl, some,
  arith, length-append,
}
use libgitops.Prelude.Text.{Str, bytes, str_eq_iff, split, join}
use libgitops.Prelude.Outcome.{ok}
use libgitops.FilePath
use libgitops.FilePath.{slash, render}
use libgitops.FilePath.Laws.{
  IsPlain, AllPlain, AllPlain-append, segments, clean-render, split-clean, join-join, join-render,
  is_empty-render, is_empty-join,
}
use libgitops.Raw.Content.{ext_for_content_type}
use libgitops.Raw.Generic.{
  GenericRawStorage, key_path, get_key, same_base, key_below, new_generic_raw_storage,
}

same_base-append : (xs ys : List Str) → same_base xs (xs ++ ys) ≡ true
unfolding same_base
same_base-append [] ys = refl
same_base-append (x ∷ xs) ys = ground (arith, str_eq_iff x x, same_base-append xs ys)

key_below-append :
    (group version kind uid : Str) (xs rest : List Str)
    → key_below group version xs (xs ++ kind ∷ uid ∷ rest)
      ≡ ok (
          some (record {
            kind_key = record { group = group; version = version; kind = kind };
            identifier = uid;
          }))
unfolding key_below
key_below-append group version kind uid [] rest = refl
key_below-append group version kind uid (x ∷ xs) rest =
    key_below-append group version kind uid xs rest

ext_for_content_type-cases :
    (backwards : Bool) (ct : Str)
    → (ext_for_content_type backwards ct ≡ [])
      ⊎ (ext_for_content_type backwards ct ≡ bytes ".json")
      ⊎ (ext_for_content_type backwards ct ≡ bytes ".yaml")
      ⊎ (ext_for_content_type backwards ct ≡ bytes ".yml")
unfolding ext_for_content_type
ext_for_content_type-cases true ct = ground arith
ext_for_content_type-cases false ct = ground arith

-- What the constructor puts into the fields.
pub record IsNew (dir group version : Str) (r : GenericRawStorage) : Type 0 where
  pub dir_eq : r.dir ≡ dir
  pub group_eq : r.group ≡ group
  pub version_eq : r.version ≡ version
  pub ext_eq : (r.ext ≡ bytes ".json") ⊎ (r.ext ≡ bytes ".yaml") ⊎ (r.ext ≡ bytes ".yml")

made-IsNew :
    (backwards : Bool) (dir group version ct : Str) (r : GenericRawStorage)
    → new_generic_raw_storage backwards dir group version ct ≡ ok r
    → IsNew dir group version r
unfolding new_generic_raw_storage
made-IsNew backwards dir group version ct r h =
    let cases : _ = ext_for_content_type-cases backwards ct in ground (arith, cases)

metadata-IsPlain :
    (ext : Str)
    → (ext ≡ bytes ".json") ⊎ (ext ≡ bytes ".yaml") ⊎ (ext ≡ bytes ".yml")
    → IsPlain (bytes "metadata" ++ ext)
metadata-IsPlain ext (inl e) =
    rw e (record { filled = refl; not_dot = refl; not_dot_dot = refl; free = ground arith })
metadata-IsPlain ext (inr (inl e)) =
    rw e (record { filled = refl; not_dot = refl; not_dot_dot = refl; free = ground arith })
metadata-IsPlain ext (inr (inr e)) =
    rw e (record { filled = refl; not_dot = refl; not_dot_dot = refl; free = ground arith })

segments-append :
    (rooted : Bool) (xs ys : List Str) → segments rooted (xs ++ ys) ≡ segments rooted xs ++ ys
segments-append true xs ys = refl
segments-append false xs ys = refl

module _ (rooted : Bool) (x : Str) (xs : List Str) (plain : AllPlain (x ∷ xs)) (kind id : Str)
    (ids : List Str) (meta : Str) (below : AllPlain (kind ∷ id ∷ ids))
    (meta_plain : IsPlain meta) where
  abbrev full : List Str
  full = xs ++ kind ∷ id ∷ (ids ++ meta ∷ [])

  full-AllPlain : AllPlain (x ∷ full)
  full-AllPlain = (
    plain.0,
    AllPlain-append xs (kind ∷ id ∷ (ids ++ meta ∷ [])) plain.1
        (below.0, (below.1.0, AllPlain-append ids (meta ∷ []) below.1.1 (meta_plain, tt))),
  )

  join_parts :
      join (slash ∷ []) (render rooted (x ∷ xs) ∷ kind ∷ join (slash ∷ []) (id ∷ ids) ∷ meta ∷ [])
      ≡ render rooted (x ∷ full)
  unfolding join
  join_parts =
      ap (λ (r : Str). render rooted (x ∷ xs) ++ (slash ∷ (kind ++ (slash ∷ r))))
        (join-join (slash ∷ []) id ids (meta ∷ []))
      ∙ join-render rooted x kind xs (id ∷ (ids ++ meta ∷ []))

  -- The path of an object whose identifier has the elements `id ∷ ids`.
  join_path-render :
      FilePath.join_path (render rooted (x ∷ xs) ∷ kind ∷ join (slash ∷ []) (id ∷ ids) ∷ meta ∷ [])
      ≡ render rooted (x ∷ full)
  unfolding FilePath.join_path
  join_path-render =
      rw
        (
          is_empty-render rooted x xs plain.0,
          below.0.filled,
          is_empty-join id ids below.1.0,
          meta_plain.filled,
          join_parts,
        )
        (clean-render rooted x full full-AllPlain)

  split-full :
      split slash (FilePath.clean (render rooted (x ∷ full)))
      ≡ segments rooted (x ∷ xs) ++ kind ∷ id ∷ (ids ++ meta ∷ [])
  split-full =
      split-clean rooted x full full-AllPlain
      ∙ segments-append rooted (x ∷ xs) (kind ∷ id ∷ (ids ++ meta ∷ []))

-- `GetKey` on a path that lies at least two elements below the directory.
get_key_below :
    (r : GenericRawStorage) (p : Str) (base : List Str) (kind uid : Str) (rest : List Str)
    → split slash (FilePath.clean r.dir) ≡ base
    → split slash (FilePath.clean p) ≡ base ++ kind ∷ uid ∷ rest
    → get_key r p
      ≡ ok (
          some (record {
            kind_key = record { group = r.group; version = r.version; kind = kind };
            identifier = uid;
          }))
unfolding get_key
get_key_below r p base kind uid rest at_dir at_path =
    rw (at_dir, at_path, same_base-append base (kind ∷ uid ∷ rest), key_below-append)
      (ground (arith, length-append base (kind ∷ uid ∷ rest)))

-- In a storage that `NewGenericRawStorage` made for a directory of plain elements, `GetKey` maps the
-- path of a key of the storage's group and version to that key with the identifier cut down to its
-- first element, if the kind and the elements of the identifier are plain. An identifier of one element
-- is thus kept.
pub get_key-key_path_first :
    (backwards rooted : Bool) (x : Str) (xs : List Str) (group version ct : Str)
    (r : GenericRawStorage) (kind id : Str) (ids : List Str)
    → new_generic_raw_storage backwards (render rooted (x ∷ xs)) group version ct ≡ ok r
    → AllPlain (x ∷ xs)
    → AllPlain (kind ∷ id ∷ ids)
    → get_key r (
        key_path r (record {
          kind_key = record { group = group; version = version; kind = kind };
          identifier = join (slash ∷ []) (id ∷ ids);
        }))
      ≡ ok (
          some (record {
            kind_key = record { group = group; version = version; kind = kind };
            identifier = id;
          }))
unfolding key_path
get_key-key_path_first backwards rooted x xs group version ct r kind id ids made plain below =
    let n = made-IsNew backwards (render rooted (x ∷ xs)) group version ct r made in
    let meta = metadata-IsPlain r.ext n.ext_eq in
    let at_dir : split slash (FilePath.clean r.dir) ≡ segments rooted (x ∷ xs) =
      subst (λ d. split slash (FilePath.clean d) ≡ segments rooted (x ∷ xs)) (sym n.dir_eq)
        (split-clean rooted x xs plain) in
    let joined =
      ap
        (λ (d : Str).
          FilePath.join_path
            (d ∷ kind ∷ join (slash ∷ []) (id ∷ ids) ∷ (bytes "metadata" ++ r.ext) ∷ []))
        n.dir_eq
      ∙ join_path-render rooted x xs plain kind id ids (bytes "metadata" ++ r.ext) below meta in
    cc (
      get_key_below r _ (segments rooted (x ∷ xs)) kind id (ids ++ (bytes "metadata" ++ r.ext) ∷ [])
          at_dir
          (ap (λ (p : Str). split slash (FilePath.clean p)) joined
            ∙ split-full rooted x xs plain kind id ids (bytes "metadata" ++ r.ext) below meta),
      n.group_eq,
      n.version_eq,
    )

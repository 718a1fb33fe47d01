-- ===== src/Codec/Annotations.antt =====
-- pkg/serializer/objectmeta.go: the annotations of an object that embeds `metav1.ObjectMeta`. A map
-- of annotations is shared with the object, so a `delete` from it changes the object.
use libgitops.Prelude.{
  ◌≡◌, Bool, ◌&&◌, Option, none, some, [], arith, if◌then◌else◌, Option-cases, inl, inr,
}
use libgitops.Prelude.Text.{Str, str_eq, str_eq_iff, text_eq}
use libgitops.Prelude.Dict.{Dict, lookup, insert, erase, lookup-insert, lookup-erase}
use libgitops.Codec.{Objects}

module _ {O : Type 0} (api : Objects O) where
  -- Whether `toMetaObject` succeeds, with the same object.
  unfoldable pub is_meta : O → Bool
  is_meta obj = api.is_meta_accessor obj && (api.has_object_meta obj && api.is_meta_object obj)

  unfoldable pub get_annotation : Str → O → Option Str
  get_annotation key obj = elim (api.get_annotations obj) [ none ↦ none | some a ↦ lookup key a ]

  unfoldable pub set_annotation : Str → Str → O → O
  set_annotation key val obj = elim (api.get_annotations obj) [
    | none ↦ api.set_annotations (insert key val []) obj
    | some a ↦ api.set_annotations (insert key val a) obj
  ]

  unfoldable pub delete_annotation : Str → O → O
  delete_annotation key obj = elim (api.get_annotations obj) [
    | none ↦ obj
    | some a ↦ elim (lookup key a) [ none ↦ obj | some val ↦ api.set_annotations (erase key a) obj ]
  ]

  -- Annotations that are set are those that are got, and setting them keeps what the object is.
  pub record KeepsAnnotations : Type 0 where
    pub get_set :
        (a : Dict Str Str) (obj : O) → api.get_annotations (api.set_annotations a obj) ≡ some a
    pub set_meta : (a : Dict Str Str) (obj : O) → is_meta (api.set_annotations a obj) ≡ is_meta obj

  pub get_annotation-set :
      KeepsAnnotations
      → (k key val : Str) (obj : O)
      → get_annotation k (set_annotation key val obj)
        ≡ (if str_eq key k then some val else get_annotation k obj)
  unfolding get_annotation set_annotation lookup
  get_annotation-set keeps k key val obj = elim (Option-cases (api.get_annotations obj)) [
    | inl nil ↦
        ground (arith, nil, keeps.get_set (insert key val []) obj, lookup-insert k key val [])
    | inr (a, some_a) ↦
        ground (arith, some_a, keeps.get_set (insert key val a) obj, lookup-insert k key val a)
  ]

  pub get_annotation-delete :
      KeepsAnnotations
      → (k key : Str) (obj : O)
      → get_annotation k (delete_annotation key obj)
        ≡ (if str_eq key k then none else get_annotation k obj)
  unfolding get_annotation delete_annotation lookup
  get_annotation-delete keeps k key obj = elim (Option-cases (api.get_annotations obj)) [
    | inl nil ↦ ground (arith, nil)
    | inr (a, some_a) ↦ elim (Option-cases (lookup key a)) [
      | inl lost ↦ ground (arith, some_a, lost, str_eq_iff key k)
      | inr (val, found) ↦
          ground (arith, some_a, found, keeps.get_set (erase key a) obj, lookup-erase k key a)
    ]
  ]

  pub is_meta-set :
      KeepsAnnotations
      → (key val : Str) (obj : O) → is_meta (set_annotation key val obj) ≡ is_meta obj
  unfolding set_annotation
  is_meta-set keeps key val obj = elim (Option-cases (api.get_annotations obj)) [
    | inl nil ↦ ground (arith, nil, keeps.set_meta (insert key val []) obj)
    | inr (a, some_a) ↦ ground (arith, some_a, keeps.set_meta (insert key val a) obj)
  ]

  pub delete_annotation-none :
      (key : Str) (obj : O) → get_annotation key obj ≡ none → delete_annotation key obj ≡ obj
  unfolding get_annotation delete_annotation
  delete_annotation-none key obj h = elim (Option-cases (api.get_annotations obj)) [
    | inl nil ↦ ground (arith, nil)
    | inr (a, some_a) ↦ ground (arith, some_a, h)
  ]

-- ===== src/Prelude/Outcome.antt =====
-- What a Go function with an `error` result does: it returns a value, or an error, or it panics.
-- An error that is wrapped by `%w` is the error that it wraps, since `errors.Is` finds it.
use libgitops.Prelude.{ℕ, ◌≡◌, refl, Bool, true, false, ◌⊎◌, inl, inr, arith}
use libgitops.Key.{Gvk}

-- The causes of the structured errors of pkg/serializer/error.go.
pub data UnrecognizedTypeErrorCause : Type 0 where
  unknown_group unknown_version unknown_kind : UnrecognizedTypeErrorCause

pub data CrdConversionErrorCause : Type 0 where
  cause_convert_to cause_convert_from scheme_setup invalid_args : CrdConversionErrorCause

pub data Error : Type 0 where
  not_found not_tracked already_exists ambiguous_find : Error
  invalid_filter_params unsupported_group_version unsupported_content_type : Error
  os_not_exist os_failure : Error
  unidentified unknown_gvk unexpected_frame_count not_an_object : Error
  path_not_long_enough path_wrong_base no_mapping_found : Error
  not_started cannot_write_to_read_only no_pull_request_provider invalid_result : Error
  git_timeout git_failure : Error
  eof short_buffer frame_overflow : Error
  out_must_be_hub in_must_be_hub must_not_have_two_hubs obj_must_not_be_both : Error
  invalid_kinds no_registered_version no_group_version no_hub_type : Error
  nil_object not_into no_object_meta no_stored_comments : Error
  provider_not_supported invalid_spec nil_milestone_number milestone_not_found : Error
  external : ℕ → Error
  -- `UnrecognizedTypeError`, and `CRDConversionError` with an error and with nil.
  unrecognized_type : UnrecognizedTypeErrorCause → Gvk → Error → Error
  crd_conversion : CrdConversionErrorCause → Gvk → Error → Error
  crd_conversion_nil : CrdConversionErrorCause → Gvk → Error

-- `errors.Is(err, ErrNotFound)`: `ErrNotTracked` wraps `ErrNotFound`, and the structured errors
-- have an `Unwrap`.
unfoldable pub is_not_found : Error → Bool
is_not_found not_found = true
is_not_found not_tracked = true
is_not_found (unrecognized_type cause gvk e) = is_not_found e
is_not_found (crd_conversion cause gvk e) = is_not_found e
is_not_found _ = false

pub data Outcome {ℓ} (A : Type ℓ) : Type ℓ where
  ok : A → Outcome A
  err : Error → Outcome A
  panic : Outcome A

infixl 5 ◌>>=◌ ◌>>◌
abbrev pub ◌>>=◌ {ℓ κ} : {A : Type ℓ} {B : Type κ} → Outcome A → (A → Outcome B) → Outcome B
ok a >>= f = f a
err e >>= f = err e
panic >>= f = panic

abbrev pub ◌>>◌ {ℓ κ} : {A : Type ℓ} {B : Type κ} → Outcome A → Outcome B → Outcome B
m >> k = m >>= λ _. k

pub Outcome-cases {ℓ} :
    {A : Type ℓ} (o : Outcome A)
    → ((a : A) × (o ≡ ok a)) ⊎ ((e : Error) × (o ≡ err e)) ⊎ (o ≡ panic)
Outcome-cases (ok a) = inl (a, refl)
Outcome-cases (err e) = inr (inl (e, refl))
Outcome-cases panic = inr (inr refl)

-- What a sequence that succeeds has done.
pub bind-ok {ℓ κ} :
    {A : Type ℓ} {B : Type κ} (m : Outcome A) (f : A → Outcome B) (b : B)
    → (m >>= f) ≡ ok b
    → (a : A) × (m ≡ ok a) × (f a ≡ ok b)
bind-ok (ok a) f b h = (a, refl, h)
bind-ok (err e) f b h = absurd (ground (arith, h))
bind-ok panic f b h = absurd (ground (arith, h))

-- The result of a function that returns only an `error`.
abbrev pub Done : Type 0
Done = Outcome (Unit {0})

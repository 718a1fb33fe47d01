-- ===== src/Codec/Defaulter.antt =====
-- pkg/serializer/defaulter.go: defaulting objects of internal and of external versions.
pub mod Laws
use libgitops.Prelude.{Bool, true, false, not, Option, none, some, List, [], ◌∷◌, if◌then◌else◌}
use libgitops.Prelude.Text.{Str, str_eq}
use libgitops.Prelude.Outcome.{Outcome, Done, ok, err, panic, ◌>>=◌, Error}
use libgitops.Key.{Gvk}
use libgitops.Codec.{
  Objects, Scheme, with_kind, gvk_for_object, prioritized_version_for_group, api_version_internal,
}

module _ {S O : Type 0} (api : Objects O) (scheme : Scheme S O) (s : S) where
  -- `runDefaulting`, which returns the object that it writes to.
  unfoldable pub run_defaulting : O → Outcome O
  run_defaulting obj = do
    gvk ← gvk_for_object api scheme s obj
    if not (str_eq gvk.version api_version_internal) then ok (scheme.default obj s) else (do
      gv ← prioritized_version_for_group api scheme s gvk.group
      external ← scheme.new (with_kind gv gvk.kind) s
      converted ← scheme.convert obj external s
      scheme.convert (scheme.default converted s) obj s)

  -- The loop of `Default`: each object, as it was if its defaulting fails, and each error or nil.
  unfoldable pub default_each : List O → Outcome (List O × List (Option Error))
  default_each [] = ok ([], [])
  default_each (obj ∷ objs) =
      let rest = default_each objs in
      elim (run_defaulting obj) [
        | ok out ↦ (do r ← rest; ok (out ∷ r.0, none ∷ r.1))
        | err e ↦ (do r ← rest; ok (obj ∷ r.0, some e ∷ r.1))
        | panic ↦ panic
      ]

  -- `errors.NewAggregate` is the parameter.
  module _ (new_aggregate : List (Option Error) → Option Error) where
    -- `Default`
    unfoldable pub default : List O → Outcome (List O × Option Error)
    default objs = do r ← default_each objs; ok (r.0, new_aggregate r.1)

    -- `NewDefaultedObject`
    unfoldable pub new_defaulted_object : Gvk → Outcome O
    new_defaulted_object gvk = do
      obj ← scheme.new gvk s
      r ← default (obj ∷ [])
      elim r.1 [ some e ↦ err e | none ↦ elim r.0 [ [] ↦ ok obj | o ∷ os ↦ ok o ] ]

-- ===== src/Runtime/Identifiers.antt =====
-- Which objects share an identifier.
use libgitops.Prelude.{◌≡◌, some, [], ◌∷◌, ◌++◌, arith}
use libgitops.Prelude.Text.{Str, Free}
use libgitops.FilePath.{slash}
use libgitops.Runtime.{Object, metav1_name_identify}

append_slash-injective :
    (a b c d : Str)
    → Free slash a
    → Free slash b
    → a ++ (slash ∷ c) ≡ b ++ (slash ∷ d)
    → (a ≡ b) × (c ≡ d)
append_slash-injective [] [] c d fa fb h = ground arith
append_slash-injective [] (y ∷ b) c d fa fb h = ground arith
append_slash-injective (x ∷ a) [] c d fa fb h = ground arith
append_slash-injective (x ∷ a) (y ∷ b) c d fa fb h =
    ground (arith, append_slash-injective a b c d fa.1 fb.1)

-- Two objects whose namespaces hold no slash have the same namespace and name if the
-- namespace/name identifier finds both and gives them the same identifier.
pub metav1_name_identify-injective :
    (o p : Object) (id : Str)
    → Free slash o.namespace
    → Free slash p.namespace
    → metav1_name_identify o ≡ some id
    → metav1_name_identify p ≡ some id
    → (o.namespace ≡ p.namespace) × (o.name ≡ p.name)
unfolding metav1_name_identify
metav1_name_identify-injective o p id fo fp ho hp =
    append_slash-injective o.namespace p.namespace o.name p.name fo fp (ground arith)

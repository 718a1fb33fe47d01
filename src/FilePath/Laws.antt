-- ===== src/FilePath/Laws.antt =====
-- Cleaning leaves paths of plain elements alone.
use mathlib.Core.List.{reverse-cons}
use libgitops.Prelude.{
  Bool, true, false, List, [], ◌∷◌, ◌++◌, reverse, ◌≡◌, ◌∙◌, ap, refl, arith, sym, append-nil,
  append_assoc,
}
use libgitops.Prelude.Text.{Str, str_eq, is_empty, Free, AllFree, split, join, split-join}
use libgitops.FilePath.{slash, dot, dot_dot, resolve, render, clean, is_rooted}

-- A nonempty path element that is not `.` or `..` and holds no slash.
pub record IsPlain (x : Str) : Type 0 where
  pub filled : is_empty x ≡ false
  pub not_dot : str_eq x dot ≡ false
  pub not_dot_dot : str_eq x dot_dot ≡ false
  pub free : Free slash x

abbrev pub AllPlain : List Str → Type 0
AllPlain [] = Unit
AllPlain (x ∷ xs) = IsPlain x × AllPlain xs

pub AllPlain-append : (xs ys : List Str) → AllPlain xs → AllPlain ys → AllPlain (xs ++ ys)
AllPlain-append [] ys h k = k
AllPlain-append (x ∷ xs) ys h k = (h.0, AllPlain-append xs ys h.1 k)

-- The elements of a cleaned path, as `strings.Split` returns them.
abbrev pub segments : Bool → List Str → List Str
segments true xs = [] ∷ xs
segments false xs = xs

AllPlain-AllFree : (xs : List Str) → AllPlain xs → AllFree slash xs
AllPlain-AllFree [] h = h
AllPlain-AllFree (x ∷ xs) h = (h.0.free, AllPlain-AllFree xs h.1)

resolve-AllPlain :
    (rooted : Bool) (out xs : List Str) → AllPlain xs → resolve rooted out xs ≡ reverse out ++ xs
unfolding resolve
resolve-AllPlain rooted out [] h = sym (append-nil (reverse out))
resolve-AllPlain rooted out (x ∷ xs) h =
    rw (h.0.filled, h.0.not_dot, h.0.not_dot_dot, resolve-AllPlain rooted (x ∷ out) xs h.1)
      (rw reverse-cons (append_assoc (reverse out) (x ∷ []) xs))

is_rooted-join :
    (x : Str) (xs : List Str) → IsPlain x → is_rooted (join (slash ∷ []) (x ∷ xs)) ≡ false
unfolding is_rooted join
is_rooted-join [] xs h = ground (arith, h.filled)
is_rooted-join (c ∷ s) [] h = h.free.0
is_rooted-join (c ∷ s) (y ∷ ys) h = h.free.0

split-render :
    (rooted : Bool) (x : Str) (xs : List Str)
    → AllPlain (x ∷ xs)
    → split slash (render rooted (x ∷ xs)) ≡ segments rooted (x ∷ xs)
unfolding render split
split-render false x xs h = split-join slash x xs (AllPlain-AllFree (x ∷ xs) h)
split-render true x xs h = ap (λ r. [] ∷ r) (split-join slash x xs (AllPlain-AllFree (x ∷ xs) h))

is_rooted-render :
    (rooted : Bool) (x : Str) (xs : List Str)
    → AllPlain (x ∷ xs)
    → is_rooted (render rooted (x ∷ xs)) ≡ rooted
unfolding render is_rooted
is_rooted-render false x xs h = unfold join in is_rooted-join x xs h.0
is_rooted-render true x xs h = refl

resolve-segments :
    (rooted : Bool) (xs : List Str) → AllPlain xs → resolve rooted [] (segments rooted xs) ≡ xs
unfolding resolve
resolve-segments false xs h = resolve-AllPlain false [] xs h
resolve-segments true xs h = resolve-AllPlain true [] xs h

-- A path of plain elements is clean.
pub clean-render :
    (rooted : Bool) (x : Str) (xs : List Str)
    → AllPlain (x ∷ xs)
    → clean (render rooted (x ∷ xs)) ≡ render rooted (x ∷ xs)
unfolding clean
clean-render rooted x xs h =
    rw (is_rooted-render rooted x xs h, split-render rooted x xs h)
      (rw (resolve-segments rooted (x ∷ xs) h))

pub split-clean :
    (rooted : Bool) (x : Str) (xs : List Str)
    → AllPlain (x ∷ xs)
    → split slash (clean (render rooted (x ∷ xs))) ≡ segments rooted (x ∷ xs)
split-clean rooted x xs h = rw (clean-render rooted x xs h) (split-render rooted x xs h)

-- What is joined to begin with can be joined again.
pub join-join :
    (sep x : Str) (xs ys : List Str) → join sep (join sep (x ∷ xs) ∷ ys) ≡ join sep ((x ∷ xs) ++ ys)
unfolding join
join-join sep x [] ys = refl
join-join sep x (z ∷ zs) [] = ap (λ r. x ++ (sep ++ r)) (join-join sep z zs [])
join-join sep x (z ∷ zs) (y ∷ ys) =
    append_assoc x (sep ++ join sep (z ∷ zs)) (sep ++ join sep (y ∷ ys))
    ∙ ap (λ r. x ++ r)
        (append_assoc sep (join sep (z ∷ zs)) (sep ++ join sep (y ∷ ys))
          ∙ ap (λ r. sep ++ r) (join-join sep z zs (y ∷ ys)))

pub join-render :
    (rooted : Bool) (x y : Str) (xs ys : List Str)
    → join (slash ∷ []) (render rooted (x ∷ xs) ∷ y ∷ ys) ≡ render rooted ((x ∷ xs) ++ y ∷ ys)
unfolding render join
join-render false x y xs ys = join-join (slash ∷ []) x xs (y ∷ ys)
join-render true x y xs ys = ap (λ r. slash ∷ r) (join-join (slash ∷ []) x xs (y ∷ ys))

pub is_empty-join :
    (x : Str) (xs : List Str) → IsPlain x → is_empty (join (slash ∷ []) (x ∷ xs)) ≡ false
unfolding join
is_empty-join [] xs h = ground (arith, h.filled)
is_empty-join (c ∷ x) [] h = refl
is_empty-join (c ∷ x) (y ∷ ys) h = refl

pub is_empty-render :
    (rooted : Bool) (x : Str) (xs : List Str)
    → IsPlain x
    → is_empty (render rooted (x ∷ xs)) ≡ false
unfolding render
is_empty-render true x xs h = refl
is_empty-render false x xs h = is_empty-join x xs h

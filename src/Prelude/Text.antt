-- ===== src/Prelude/Text.antt =====
-- Go's strings and byte slices: lists of bytes, with the functions of package `strings` in use.
use Prim.Native.Char.{code}
use Prim.Native.String.{String}
use libgitops.Prelude.{
  ℕ, Bool, true, false, ◌&&◌, ◌||◌, leb, ◌≡◌, ◌↔◌, ◌∙◌, ap, refl, List, [], ◌∷◌, ◌++◌, reverse,
  arith, nat_beq, if◌then◌else◌,
}
use libgitops.Prelude.Equality.{Comparable}

abbrev pub Str : Type 0
Str = List ℕ

-- The bytes of an ASCII literal.
abbrev pub bytes : String → Str
bytes String.[] = []
bytes (String.◌∷◌ c s) = code c ∷ bytes s

-- `s == t`
abbrev pub str_eq : Str → Str → Bool
str_eq [] [] = true
str_eq [] (d ∷ t) = false
str_eq (c ∷ s) [] = false
str_eq (c ∷ s) (d ∷ t) = nat_beq c d && str_eq s t

pub str_eq_iff : (s t : Str) → (str_eq s t ≡ true) ↔ (s ≡ t)
str_eq_iff [] [] = (λ h. refl, λ h. refl)
str_eq_iff [] (d ∷ t) = (λ h. cc, λ h. cc)
str_eq_iff (c ∷ s) [] = (λ h. cc, λ h. cc)
str_eq_iff (c ∷ s) (d ∷ t) = ground (arith, str_eq_iff s t)

instance abbrev pub text_eq : Comparable Str
text_eq = record { same = str_eq; same_iff = str_eq_iff }

-- `len(s) == 0`
abbrev pub is_empty : Str → Bool
is_empty [] = true
is_empty (c ∷ s) = false

-- `strings.HasPrefix(s, prefix)`
unfoldable pub has_prefix : Str → Str → Bool
has_prefix s [] = true
has_prefix [] (d ∷ p) = false
has_prefix (c ∷ s) (d ∷ p) = nat_beq c d && has_prefix s p

-- `strings.HasSuffix(s, suffix)`
unfoldable pub has_suffix : Str → Str → Bool
unfolding has_prefix
has_suffix s suffix = has_prefix (reverse s) (reverse suffix)

-- `strings.TrimPrefix(s, prefix)`
unfoldable pub trim_prefix : Str → Str → Str
trim_prefix s p = strip s p s
  where
    strip : Str → Str → Str → Str
    strip rest [] whole = rest
    strip [] (d ∷ q) whole = whole
    strip (c ∷ rest) (d ∷ q) whole = if nat_beq c d then strip rest q whole else whole

-- The white space of `unicode.IsSpace`, in UTF-8: the characters of one, two and three bytes.
is_space : ℕ → Bool
is_space c = nat_beq c 32 || (leb 9 c && leb c 13)

is_space_2 : ℕ → ℕ → Bool
is_space_2 c d = nat_beq c 0xC2 && (nat_beq d 0x85 || nat_beq d 0xA0)

-- U+1680, U+2000 to U+200A, U+2028, U+2029, U+202F, U+205F and U+3000.
is_space_3 : ℕ → ℕ → ℕ → Bool
is_space_3 c d e =
    (nat_beq c 0xE1 && (nat_beq d 0x9A && nat_beq e 0x80))
    || ((nat_beq c 0xE2
          && ((nat_beq d 0x80
                && ((leb 0x80 e && leb e 0x8A)
                    || (nat_beq e 0xA8 || (nat_beq e 0xA9 || nat_beq e 0xAF))))
              || (nat_beq d 0x81 && nat_beq e 0x9F)))
        || (nat_beq c 0xE3 && (nat_beq d 0x80 && nat_beq e 0x80)))

-- White space at the start is dropped, for tests of characters of one, two and three bytes.
drop_space : (ℕ → ℕ → Bool) → (ℕ → ℕ → ℕ → Bool) → Str → Str
unfolding is_space
drop_space two three [] = []
drop_space two three (c ∷ []) = if is_space c then [] else c ∷ []
drop_space two three (c ∷ d ∷ []) =
    let after_1 = drop_space two three (d ∷ []) in
    if is_space c then after_1 else if two c d then [] else c ∷ d ∷ []
drop_space two three (c ∷ d ∷ e ∷ s) =
    let after_1 = drop_space two three (d ∷ e ∷ s) in
    let after_2 = drop_space two three (e ∷ s) in
    let after_3 = drop_space two three s in
    if is_space c
    then after_1
    else if two c d
    then after_2
    else if three c d e
    then after_3
    else c ∷ d ∷ e ∷ s

-- `strings.TrimSpace(s)` and `bytes.TrimSpace(s)`; at the end the characters are met backwards.
unfoldable pub trim_space : Str → Str
unfolding drop_space is_space_2 is_space_3
trim_space s = reverse (
    drop_space (λ c d. is_space_2 d c) (λ c d e. is_space_3 e d c)
      (reverse (drop_space is_space_2 is_space_3 s)))

cons_head : ℕ → List Str → List Str
cons_head c [] = (c ∷ []) ∷ []
cons_head c (x ∷ xs) = (c ∷ x) ∷ xs

-- `strings.Split(s, sep)` at a separator of one byte.
unfoldable pub split : ℕ → Str → List Str
unfolding cons_head
split sep [] = [] ∷ []
split sep (c ∷ s) = let rest = split sep s in if nat_beq c sep then [] ∷ rest else cons_head c rest

-- `strings.Join(parts, sep)`
unfoldable pub join : Str → List Str → Str
join sep [] = []
join sep (x ∷ []) = x
join sep (x ∷ y ∷ ys) = x ++ (sep ++ join sep (y ∷ ys))

-- No byte of the text is `sep`.
abbrev pub Free : ℕ → Str → Type 0
Free sep [] = Unit
Free sep (c ∷ s) = (nat_beq c sep ≡ false) × Free sep s

pub split-Free-append :
    (sep : ℕ) (x s : Str) → Free sep x → split sep (x ++ sep ∷ s) ≡ x ∷ split sep s
unfolding split cons_head
split-Free-append sep [] s h = ground arith
split-Free-append sep (c ∷ x) s h = ground (arith, split-Free-append sep x s h.1)

pub split-Free : (sep : ℕ) (x : Str) → Free sep x → split sep x ≡ x ∷ []
unfolding split cons_head
split-Free sep [] h = refl
split-Free sep (c ∷ x) h = ground (arith, split-Free sep x h.1)

abbrev pub AllFree : ℕ → List Str → Type 0
AllFree sep [] = Unit
AllFree sep (x ∷ xs) = Free sep x × AllFree sep xs

-- Splitting what was joined gives the parts back, if there is one and none holds the separator.
pub split-join :
    (sep : ℕ) (x : Str) (xs : List Str)
    → AllFree sep (x ∷ xs)
    → split sep (join (sep ∷ []) (x ∷ xs)) ≡ x ∷ xs
unfolding join
split-join sep x [] h = split-Free sep x h.0
split-join sep x (y ∷ ys) h =
    split-Free-append sep x (join (sep ∷ []) (y ∷ ys)) h.0
    ∙ ap (λ r. x ∷ r) (split-join sep y ys h.1)

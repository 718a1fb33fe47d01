-- ===== src/FilePath.antt =====
-- The parts of Go's packages `path` and `path/filepath` that the program uses, on Unix.
pub mod Laws
use libgitops.Prelude.{
  ℕ, Bool, true, false, List, [], ◌∷◌, ◌++◌, reverse, nat_beq, if◌then◌else◌, ◌≡◌,
}
use libgitops.Prelude.Text.{Str, bytes, str_eq, is_empty, split, join}

-- `os.PathSeparator`
abbrev pub slash : ℕ
slash = b'/'

abbrev pub dot : Str
dot = bytes "."

abbrev pub dot_dot : Str
dot_dot = bytes ".."

-- The elements of a path after its `.` and `..` are resolved; `out` is what is kept, last first.
abbrev up : Bool → List Str → List Str
up true [] = []
up false [] = dot_dot ∷ []
up rooted (x ∷ out) = if str_eq x dot_dot then dot_dot ∷ x ∷ out else out

unfoldable pub resolve : Bool → List Str → List Str → List Str
resolve rooted out [] = reverse out
resolve rooted out (x ∷ xs) =
    resolve rooted
      (if is_empty x
        then out
        else if str_eq x dot
        then out
        else if str_eq x dot_dot
        then up rooted out
        else x ∷ out)
      xs

is_rooted : Str → Bool
is_rooted [] = false
is_rooted (c ∷ p) = nat_beq c slash

-- A path with the given elements.
unfoldable pub render : Bool → List Str → Str
render true xs = slash ∷ join (slash ∷ []) xs
render false [] = dot
render false (x ∷ xs) = join (slash ∷ []) (x ∷ xs)

-- `path.Clean(p)`, `filepath.Clean(p)`
unfoldable pub clean : Str → Str
unfolding resolve is_rooted render
clean p = render (is_rooted p) (resolve (is_rooted p) [] (split slash p))

drop_empty : List Str → List Str
drop_empty [] = []
drop_empty (x ∷ xs) = let rest = drop_empty xs in if is_empty x then rest else x ∷ rest

clean_nonempty : List Str → Str
clean_nonempty [] = []
clean_nonempty (x ∷ xs) = clean (join (slash ∷ []) (x ∷ xs))

-- `path.Join(parts...)`
unfoldable pub join_path : List Str → Str
unfolding drop_empty clean_nonempty clean
join_path parts = clean_nonempty (drop_empty parts)

-- The bytes of a reversed path from its last slash on.
from_slash : Str → Str
from_slash [] = []
from_slash (c ∷ p) = if nat_beq c slash then c ∷ p else from_slash p

-- `path.Dir(p)`
unfoldable pub dir : Str → Str
unfolding from_slash clean
dir p = clean (reverse (from_slash (reverse p)))

-- `filepath.Ext(p)`: on the reversed path, `acc` holds the bytes that were passed.
ext_of_reversed : Str → Str → Str
ext_of_reversed [] acc = []
ext_of_reversed (c ∷ p) acc =
    if nat_beq c slash then [] else if nat_beq c b'.' then c ∷ acc else ext_of_reversed p (c ∷ acc)

unfoldable pub ext : Str → Str
unfolding ext_of_reversed
ext p = ext_of_reversed (reverse p) []

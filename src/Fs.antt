-- ===== src/Fs.antt =====
-- The file system as the program sees it through `os` and `ioutil`: the nodes by cleaned path, a
-- clock that each write advances, and the paths on which the system refuses every operation.
-- Also pkg/util/fs.go.
pub mod Laws
use libgitops.Prelude.{
  ℕ, ◌+◌, Bool, true, false, not, ◌&&◌, ◌||◌, nat_beq, ltb, Option, none, some, List, [], ◌∷◌, ◌++◌,
  if◌then◌else◌, any,
}
use libgitops.Prelude.Text.{Str, text_eq, str_eq, is_empty, has_prefix, trim_prefix, split}
use libgitops.Prelude.Dict.{Dict, lookup, insert, erase}
use libgitops.Prelude.Outcome.{Outcome, Done, ok, err, panic, os_not_exist, os_failure}
use libgitops.FilePath
use libgitops.FilePath.{slash}

pub data Node : Type 0 where
  file : Str → ℕ → Node
  directory : Node

pub record Fs : Type 0 where
  pub nodes : Dict Str Node
  pub clock : ℕ
  pub failing : List Str

-- The system fails on this path with an error other than "does not exist".
unfoldable pub fails : List Str → Str → Bool
fails failing p = any (λ q. str_eq q p) failing

-- `os.Stat`
unfoldable pub stat : Fs → Str → Outcome Node
stat fs p =
    if fails fs.failing p
    then err os_failure
    else elim (lookup p fs.nodes) [ none ↦ err os_not_exist | some n ↦ ok n ]

-- `ioutil.ReadFile`
unfoldable pub read_file : Fs → Str → Outcome Str
unfolding stat
read_file fs p = elim (stat fs p) [
  | ok n ↦ elim n [ file content mtime ↦ ok content | directory ↦ err os_failure ]
  | err e ↦ err e
  | panic ↦ panic
]

-- The file's content and its time of modification are replaced.
unfoldable pub put_file : Fs → Str → Str → Fs
put_file fs p content = record fs {
  nodes = insert p (file content (fs.clock + 1)) fs.nodes;
  clock = fs.clock + 1;
}

unfoldable pub is_directory : Fs → Str → Bool
unfolding stat
is_directory fs p = elim (stat fs p) [
  | ok n ↦ elim n [ file content mtime ↦ false | directory ↦ true ]
  | err e ↦ false
  | panic ↦ false
]

-- `ioutil.WriteFile`: an existing file is replaced, a new one needs the directory that holds it.
unfoldable pub write_file : Fs → Str → Str → Fs × Done
unfolding stat put_file is_directory
write_file fs p content = elim (stat fs p) [
  | ok n ↦ elim n [
    | file old mtime ↦ (put_file fs p content, ok tt)
    | directory ↦ (fs, err os_failure)
  ]
  | err e ↦ elim (lookup p fs.nodes) [
    | none ↦
        if is_directory fs (FilePath.dir p)
        then (if fails fs.failing p then (fs, err os_failure) else (put_file fs p content, ok tt))
        else (fs, err os_not_exist)
    | some n ↦ (fs, err os_failure)
  ]
  | panic ↦ (fs, panic)
]

-- `os.Remove` of a file.
unfoldable pub remove : Fs → Str → Fs × Done
unfolding stat
remove fs p = elim (stat fs p) [
  | ok n ↦ elim n [
    | file old mtime ↦ (record fs { nodes = erase p fs.nodes }, ok tt)
    | directory ↦ (fs, err os_failure)
  ]
  | err e ↦ (fs, err e)
  | panic ↦ (fs, panic)
]

-- `q` is `p` or lies below it.
unfoldable pub is_within : Str → Str → Bool
is_within p q = str_eq q p || has_prefix q (p ++ slash ∷ [])

erase_within : Str → Dict Str Node → Dict Str Node
erase_within p [] = []
erase_within p ((q, n) ∷ nodes) =
    let rest = erase_within p nodes in if is_within p q then rest else (q, n) ∷ rest

-- `os.RemoveAll`
unfoldable pub remove_all : Fs → Str → Fs × Done
unfolding erase_within
remove_all fs p =
    if fails fs.failing p
    then (fs, err os_failure)
    else (record fs { nodes = erase_within p fs.nodes }, ok tt)

-- One directory of `os.MkdirAll`; the empty path is the root.
make_directory : Fs → Str → Fs × Done
unfolding stat
make_directory fs p = if is_empty p then (fs, ok tt) else elim (stat fs p) [
  | ok n ↦ elim n [ file old mtime ↦ (fs, err os_failure) | directory ↦ (fs, ok tt) ]
  | err e ↦
      if fails fs.failing p
      then (fs, err os_failure)
      else (record fs { nodes = insert p directory fs.nodes }, ok tt)
  | panic ↦ (fs, panic)
]

-- The directories on the way down, `above` being the path of what holds the next one.
make_directories : Fs → Str → List Str → Fs × Done
make_directories fs above [] = (fs, ok tt)
make_directories fs above (x ∷ xs) =
    let (fs', r) = make_directory fs (above ++ x) in
    let rest = make_directories fs' (above ++ (x ++ slash ∷ [])) xs in
    elim r [ ok u ↦ rest | err e ↦ (fs', err e) | panic ↦ (fs', panic) ]

-- `os.MkdirAll`
unfoldable pub mkdir_all : Fs → Str → Fs × Done
unfolding make_directory make_directories
mkdir_all fs p = make_directories fs [] (split slash p)

-- The byte order on texts.
text_leb : Str → Str → Bool
text_leb [] t = true
text_leb (c ∷ s) [] = false
text_leb (c ∷ s) (d ∷ t) = if nat_beq c d then text_leb s t else ltb c d

insert_sorted : Str → List Str → List Str
insert_sorted x [] = x ∷ []
insert_sorted x (y ∷ ys) =
    let rest = insert_sorted x ys in if text_leb x y then x ∷ y ∷ ys else y ∷ rest

-- The name of `q` in the directory `p`, if that directory holds it.
child_name : Str → Str → Option Str
child_name p q =
    let name = trim_prefix q (p ++ slash ∷ []) in
    if has_prefix q (p ++ slash ∷ [])
      && (not (is_empty name) && not (any (λ c. nat_beq c slash) name))
    then some name
    else none

child_names : Str → Dict Str Node → List Str
child_names p [] = []
child_names p ((q, n) ∷ nodes) =
    let rest = child_names p nodes in
    elim (child_name p q) [ none ↦ rest | some name ↦ insert_sorted name rest ]

-- `ioutil.ReadDir`: the names of the entries, sorted.
unfoldable pub read_dir : Fs → Str → Outcome (List Str)
unfolding child_names child_name insert_sorted text_leb stat
read_dir fs p = elim (stat fs p) [
  | ok n ↦ elim n [ file old mtime ↦ err os_failure | directory ↦ ok (child_names p fs.nodes) ]
  | err e ↦ err e
  | panic ↦ panic
]

-- `util.PathExists`: every error but "does not exist" counts as existing, with a nil `FileInfo`.
unfoldable pub path_exists : Fs → Str → Bool × Option Node
unfolding stat
path_exists fs p = elim (stat fs p) [
  | ok n ↦ (true, some n)
  | err e ↦ elim e [ os_not_exist ↦ (false, none) | other ↦ (true, none) ]
  | panic ↦ (true, none)
]

-- `util.FileExists`: `info.IsDir()` panics on a nil `FileInfo`.
unfoldable pub file_exists : Fs → Str → Outcome Bool
unfolding path_exists
file_exists fs p =
    let (exists, info) = path_exists fs p in
    if exists
    then elim info [
      | none ↦ panic
      | some n ↦ elim n [ file content mtime ↦ ok true | directory ↦ ok false ]
    ]
    else ok false

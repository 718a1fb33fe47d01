-- ===== src/Watcher/Valid.antt =====
-- pkg/util/watcher/dir_traversal.go: which files the watcher looks at.
use libgitops.Prelude.{
  ◌≡◌, refl, Bool, true, false, List, [], ◌∷◌, Option, none, some, arith, any, if◌then◌else◌,
}
use libgitops.Prelude.Text.{Str, str_eq, split}
use libgitops.Prelude.Outcome.{Error}
use libgitops.FilePath.{clean, slash, ext}

-- `parts[len(parts)-1]`
last_part : List Str → Str
last_part [] = []
last_part (x ∷ []) = x
last_part (x ∷ y ∷ ys) = last_part (y ∷ ys)

-- `parts[:len(parts)-1]`
all_but_last : List Str → List Str
all_but_last [] = []
all_but_last (x ∷ []) = []
all_but_last (x ∷ y ∷ ys) = x ∷ all_but_last (y ∷ ys)

-- The last loops: a part of the path is an excluded directory, or no part is.
excluded : List Str → List Str → Bool
excluded parts exclude_dirs =
    if any (λ part. any (str_eq part) exclude_dirs) (all_but_last parts) then false else false

unfoldable pub is_valid_file : Str → List Str → List Str → Bool
unfolding last_part all_but_last excluded
is_valid_file p valid_exts exclude_dirs =
    let parts = split slash (clean p) in
    if any (str_eq (ext (last_part parts))) valid_exts then true else excluded parts exclude_dirs

-- One call of the function that `filepath.Walk` is given: the path, its `IsDir`, its error.
pub record Visit : Type 0 where
  pub path : Str
  pub is_dir : Bool
  pub error : Option Error

-- `WalkDirectoryForFiles`, on what `filepath.Walk` visits until an error is returned.
unfoldable pub walk_directory_for_files : List Visit → List Str → List Str → List Str × Option Error
walk_directory_for_files [] valid_exts exclude_dirs = ([], none)
walk_directory_for_files (v ∷ visited) valid_exts exclude_dirs =
    let (files, error) = walk_directory_for_files visited valid_exts exclude_dirs in
    elim v.error [
      | some e ↦ ([], some e)
      | none ↦ if v.is_dir then (files, error) else (
        if is_valid_file v.path valid_exts exclude_dirs then v.path ∷ files else files,
        error,
      )
    ]

-- The excluded directories have no effect on which files of a directory are found.
pub walk_directory_for_files-exclude :
    (visited : List Visit) (valid_exts exclude_dirs : List Str)
    → walk_directory_for_files visited valid_exts exclude_dirs
      ≡ walk_directory_for_files visited valid_exts []
unfolding walk_directory_for_files is_valid_file excluded
walk_directory_for_files-exclude [] valid_exts exclude_dirs = refl
walk_directory_for_files-exclude (v ∷ visited) valid_exts exclude_dirs =
    ground (arith, walk_directory_for_files-exclude visited valid_exts exclude_dirs)

-- ===== src/Raw/Content.antt =====
-- pkg/storage/format.go, and `checksumFromModTime` of pkg/storage/rawstorage.go.
use libgitops.Prelude.{ℕ, Bool, reverse, none, some, [], ◌∷◌, if◌then◌else◌}
use libgitops.Prelude.Text.{Str, text_eq, bytes, str_eq}
use libgitops.Prelude.Dict.{Dict, lookup}
use libgitops.Prelude.Outcome.{Outcome, ok, err, panic}
use libgitops.Fs.{Fs, file, directory, stat}

-- `serializer.ContentType`
abbrev pub json : Str
json = bytes "application/json"

abbrev pub yaml : Str
yaml = bytes "application/yaml"

abbrev pub content_types : Dict Str Str
content_types = (bytes ".json", json) ∷ (bytes ".yaml", yaml) ∷ (bytes ".yml", yaml) ∷ []

-- The loop over the map, in the order of the list.
ext_in : Dict Str Str → Str → Str
ext_in [] wanted = []
ext_in ((ext, ct) ∷ types) wanted = if str_eq ct wanted then ext else ext_in types wanted

-- `extForContentType`: Go visits the map in any order. The two orders here, that of the list and
-- that of its reverse, give the two results that there are for YAML, ".yaml" and ".yml".
unfoldable pub ext_for_content_type : Bool → Str → Str
unfolding ext_in
ext_for_content_type backwards wanted =
    ext_in (if backwards then reverse content_types else content_types) wanted

-- `ContentTypes[ext]`: a missing key has the zero value.
unfoldable pub content_type_of : Str → Str
unfolding lookup
content_type_of ext = elim (lookup ext content_types) [ none ↦ [] | some ct ↦ ct ]

-- `mtime` stands for the result of `ModTime().UnixNano()`.
unfoldable pub checksum_from_mod_time : Fs → Str → Outcome ℕ
unfolding stat
checksum_from_mod_time fs p = elim (stat fs p) [
  | ok n ↦ elim n [ file content mtime ↦ ok mtime | directory ↦ ok 0 ]
  | err e ↦ err e
  | panic ↦ panic
]

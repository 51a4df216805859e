-- ===== src/Memfs/Vfs.antt =====
-- crates/avix-core/src/memfs/vfs.rs. The content of a file is its bytes.
use avix.Base.{
  ℕ, String, Bool, string_eq, ◌==◌, if◌then◌else◌, starts_with, List, [], ◌∷◌, add_to, none, some,
  ◌+++◌,
}
use avix.Memfs.Path.{trim_end, after_prefix, first_component}
use avix.Base.Dict.{Dict, get, insert, remove, contains_key}
use avix.Errors.{AvixError, config_parse, Result, ok, err}

abbrev pub MemFs : Type 0
MemFs = Dict String (List ℕ)

unfoldable pub write_file : String → List ℕ → MemFs → Result AvixError (Unit {0}) × MemFs
write_file path content files = (ok tt, insert path content files)

unfoldable pub read_file : String → MemFs → Result AvixError (List ℕ)
read_file path files = elim (get path files) [
  | none ↦ err (config_parse ("ENOENT: " +++ path))
  | some content ↦ ok content
]

unfoldable pub delete_file : String → MemFs → Result AvixError (Unit {0}) × MemFs
delete_file path files = elim (get path files) [
  | none ↦ (err (config_parse ("ENOENT: " +++ path)), files)
  | some _ ↦ (ok tt, remove path files)
]

pub file_exists : String → MemFs → Bool
file_exists path files = contains_key path files

-- The first components below `prefix` of the paths; a set, whose order is left open.
unfoldable pub components_under : String → MemFs → List String
components_under prefix [] = []
components_under prefix ((path, _) ∷ rest) =
    let found = components_under prefix rest in
    let first = first_component (after_prefix prefix path) in
    if starts_with path prefix then (if first == "" then found else add_to first found) else found

abbrev pub listing : String → List String → Result AvixError (List String)
listing dir [] = err (config_parse ("ENOENT: " +++ dir))
listing dir (name ∷ names) = ok (name ∷ names)

unfoldable pub list_dir : String → MemFs → Result AvixError (List String)
unfolding components_under
list_dir dir files = listing dir (components_under (trim_end dir +++ "/") files)

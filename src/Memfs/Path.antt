-- ===== src/Memfs/Path.antt =====
-- crates/avix-core/src/memfs/path.rs. A `VfsPath` is the text that it holds.
use Prim.Native.Char.{code}
use avix.Base.{
  ℕ, ◌+◌, String, Bool, false, not, ◌&&◌, ◌||◌, ◌==◌, string_eq, if◌then◌else◌, ltb, nat_beq,
  starts_with, has_text, ◌+++◌, Option, none, some, map_option,
}
use avix.Errors.{AvixError, config_parse, Result, ok, err}

unfoldable pub parse_path : String → Result AvixError String
parse_path s =
    if not (starts_with s "/")
    then err (config_parse ("VFS path must be absolute: '" +++ s +++ "'"))
    else if has_text s ".."
    then err (config_parse ("VFS path must not contain '..': '" +++ s +++ "'"))
    else ok s

unfoldable pub is_agent_writable : String → Bool
is_agent_writable p =
    if starts_with p "/proc/"
      || starts_with p "/kernel/"
      || starts_with p "/secrets/"
      || starts_with p "/etc/avix/"
      || starts_with p "/bin/"
    then false
    else if starts_with p "/users/" && has_text p "/memory/"
    then false
    else not (starts_with p "/crews/" && has_text p "/memory/")

-- `rsplit_once('/')`
unfoldable pub rsplit_slash : String → Option (String × String)
rsplit_slash String.[] = none
rsplit_slash (String.◌∷◌ c s) =
    let later = rsplit_slash s in
    elim later [
      | some (p, q) ↦ some (String.◌∷◌ c p, q)
      | none ↦ if nat_beq (code c) b'/' then some ("", s) else none
    ]

unfoldable pub parent : String → Option String
unfolding rsplit_slash
parent path =
    map_option (λ (p : String × String). if p.0 == "" then "/" else p.0) (rsplit_slash path)

unfoldable pub file_name : String → Option String
unfolding rsplit_slash
file_name path = map_option (λ (p : String × String). p.1) (rsplit_slash path)

-- `trim_start_matches('/')` and `trim_end_matches('/')`
unfoldable pub trim_start : String → String
trim_start String.[] = ""
trim_start (String.◌∷◌ c s) =
    let rest = trim_start s in if nat_beq (code c) b'/' then rest else String.◌∷◌ c s

unfoldable pub trim_end : String → String
trim_end String.[] = ""
trim_end (String.◌∷◌ c s) =
    let rest = trim_end s in if rest == "" && nat_beq (code c) b'/' then "" else String.◌∷◌ c rest

-- `s.len()`: the bytes of UTF-8
unfoldable pub byte_len : String → ℕ
byte_len String.[] = 0
byte_len (String.◌∷◌ c s) =
    let width =
      if ltb (code c) 128
      then 1
      else if ltb (code c) 2048
      then 2
      else if ltb (code c) 65536
      then 3
      else 4 in
    width + byte_len s

-- `&s[prefix.len()..]` where `s` starts with `prefix`
unfoldable pub after_prefix : String → String → String
after_prefix String.[] s = s
after_prefix (String.◌∷◌ c prefix) String.[] = ""
after_prefix (String.◌∷◌ c prefix) (String.◌∷◌ d s) = after_prefix prefix s

-- `s.split('/').next()`
unfoldable pub first_component : String → String
first_component String.[] = ""
first_component (String.◌∷◌ c s) =
    let rest = first_component s in if nat_beq (code c) b'/' then "" else String.◌∷◌ c rest

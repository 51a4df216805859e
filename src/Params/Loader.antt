-- ===== src/Params/Loader.antt =====
-- crates/avix-core/src/params/resolver.rs: `ResolverInputLoader`. The files of the VFS are read by
-- `reader`; `from_utf8`, the parsing of the two YAML files and their conversion are `parsers`.
use avix.Base.{ℕ, String, ◌+++◌, List, [], ◌∷◌, Option, none, some, map_option}
use avix.Errors.{AvixError, config_parse, display, Result, ok, err, ok_or, map_err, ◌>>=◌}
use avix.Memfs.Path.{parse_path}
use avix.Params.Defaults.{AgentDefaults}
use avix.Params.Limits.{AgentLimits}
use avix.Params.Resolver.{
  of_crew_defaults, of_user_defaults, LayeredDefaults, LayeredLimits, ResolverInput,
}
use avix.Params.Resolver.Merge.{no_defaults}

pub record Parsers (Number : Type 0) : Type 0 where
  pub defaults : List ℕ → Result AvixError (AgentDefaults Number)
  pub limits : List ℕ → Result AvixError (AgentLimits Number)

module _ {Number : Type 0} (reader : String → Result AvixError (List ℕ))
    (parsers : Parsers Number) where
  -- A file that cannot be read is no layer; one that is read must parse.
  abbrev pub read_layer :
      {A : Type 0} → (List ℕ → Result AvixError A) → String → Result AvixError (Option A)
  read_layer parse path = do
    vfs_path ←
        map_err (λ e. config_parse ("invalid path " +++ path +++ ": " +++ display e))
          (parse_path path)
    elim (reader vfs_path) [
      | err _ ↦ ok none
      | ok bytes ↦ elim (parse bytes) [ err e ↦ err e | ok a ↦ ok (some a) ]
    ]

  unfoldable pub read_defaults : String → Result AvixError (Option (AgentDefaults Number))
  read_defaults path = read_layer parsers.defaults path

  unfoldable pub read_limits : String → Result AvixError (Option (AgentLimits Number))
  read_limits path = read_layer parsers.limits path

  abbrev pub push_defaults :
      String
      → Option (AgentDefaults Number)
      → List (LayeredDefaults Number)
      → List (LayeredDefaults Number)
  push_defaults path none rest = rest
  push_defaults path (some d) rest =
      record { vfs_path = path; source = of_crew_defaults; defaults = d } ∷ rest

  abbrev pub push_limits :
      String
      → Option (AgentLimits Number)
      → List (LayeredLimits Number)
      → List (LayeredLimits Number)
  push_limits path none rest = rest
  push_limits path (some l) rest = record { vfs_path = path; limits = l } ∷ rest

  unfoldable pub load_crews :
      List String → Result AvixError (List (LayeredDefaults Number) × List (LayeredLimits Number))
  unfolding read_defaults read_limits
  load_crews [] = ok ([], [])
  load_crews (crew ∷ rest) = do
    let d_path = "/crews/" +++ crew +++ "/defaults.yaml"
    d ← read_defaults d_path
    let l_path = "/crews/" +++ crew +++ "/limits.yaml"
    l ← read_limits l_path
    (ds, ls) ← load_crews rest
    ok (push_defaults d_path d ds, push_limits l_path l ls)

  unfoldable pub load : String → List String → Result AvixError (ResolverInput Number)
  unfolding load_crews read_defaults read_limits
  load username crew_names = do
    let system_defaults_path : String = "/kernel/defaults/agent-manifest.yaml"
    let system_limits_path : String = "/kernel/limits/agent-manifest.yaml"
    found_defaults ← read_defaults system_defaults_path
    system_defaults ←
        ok_or found_defaults
          (config_parse "system defaults missing: /kernel/defaults/agent-manifest.yaml")
    found_limits ← read_limits system_limits_path
    system_limits ←
        ok_or found_limits
          (config_parse "system limits missing: /kernel/limits/agent-manifest.yaml")
    (crew_defaults, crew_limits) ← load_crews crew_names
    let user_defaults_path = "/users/" +++ username +++ "/defaults.yaml"
    user_defaults ← read_defaults user_defaults_path
    let user_limits_path = "/users/" +++ username +++ "/limits.yaml"
    user_limits ← read_limits user_limits_path
    ok (record {
      system_defaults = system_defaults;
      system_defaults_path = system_defaults_path;
      system_limits = system_limits;
      system_limits_path = system_limits_path;
      crew_limits = crew_limits;
      crew_defaults = crew_defaults;
      user_defaults =
          map_option
            (λ d. record { vfs_path = user_defaults_path; source = of_user_defaults; defaults = d })
            user_defaults;
      user_limits =
          map_option (λ l. record { vfs_path = user_limits_path; limits = l }) user_limits;
      manifest = no_defaults;
    })

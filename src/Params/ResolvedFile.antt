-- ===== src/Params/ResolvedFile.antt =====
-- crates/avix-core/src/params/resolved_file.rs: the file of a resolved configuration. `to_string` and
-- `parse` stand for serde_yaml; the time of the resolution is a text here.
use avix.Base.{ℕ, String, List, Option, ◌≡◌, refl, arith, inl, inr}
use avix.Base.Dict.{Dict}
use avix.Errors.{AvixError, config_parse, Result, ok, map_err, Result-cases}
use avix.Params.Resolver.{ResolvedConfig, Annotation}

pub record ResolvedFor : Type 0 where
  pub username : String
  pub pid : Option ℕ

pub record ResolvedMetadata : Type 0 where
  pub target : String
  pub resolved_at : String
  pub resolved_for : ResolvedFor
  pub crews : List String

pub record ResolvedFile (Number : Type 0) : Type 0 where
  pub api_version : String
  pub kind : String
  pub metadata : ResolvedMetadata
  pub resolved : ResolvedConfig Number
  pub granted_tools : List String
  pub annotations : Option (Dict String (Annotation Number))

unfoldable pub new_resolved_file :
    {Number : Type 0}
    → String
    → Option ℕ
    → List String
    → ResolvedConfig Number
    → List String
    → Option (Dict String (Annotation Number))
    → String
    → ResolvedFile Number
new_resolved_file username pid crews resolved granted_tools annotations now = record {
  api_version = "avix/v1";
  kind = "Resolved";
  metadata = record {
    target = "agent-manifest";
    resolved_at = now;
    resolved_for = record { username = username; pid = pid };
    crews = crews;
  };
  resolved = resolved;
  granted_tools = granted_tools;
  annotations = annotations;
}

module _ {Number : Type 0} (to_string : ResolvedFile Number → Result String String)
    (parse : String → Result String (ResolvedFile Number)) where
  abbrev pub write_resolved : ResolvedFile Number → Result AvixError String
  write_resolved file = map_err config_parse (to_string file)

  abbrev pub read_resolved : String → Result AvixError (ResolvedFile Number)
  read_resolved s = map_err config_parse (parse s)

  -- A file that was written is read back, where serde_yaml reads what it writes.
  pub read_resolved-write_resolved :
      (file : ResolvedFile Number)
      → ((f : ResolvedFile Number) (s : String) → to_string f ≡ ok s → parse s ≡ ok f)
      → (text : String) → write_resolved file ≡ ok text
      → read_resolved text ≡ ok file
  read_resolved-write_resolved file reads text h = elim (Result-cases (to_string file)) [
    | inl (s, e) ↦ rw (reads file text (ground (arith, e, h))) refl
    | inr (x, e) ↦ absurd (ground (arith, e, h))
  ]

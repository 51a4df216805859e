-- ===== src/Params/Files.antt =====
-- crates/avix-core/src/params/defaults.rs and crates/avix-core/src/params/limits.rs: the files that hold
-- defaults and limits. `Yaml` stands for serde_yaml; a file holds its block as a value of YAML.
use avix.Base.{ℕ, String, true, false, some, Option, ◌≡◌, refl, subst, arith, inl, inr}
use avix.Errors.{AvixError, config_parse, Result, ok, map_err, ◌>>=◌, Result-cases}
use avix.Params.Defaults.{AgentDefaults}
use avix.Params.Limits.{AgentLimits}

pub data Layer : Type 0 where
  system_layer user_layer crew_layer service_layer : Layer

pub record DefaultsMetadata : Type 0 where
  pub target : String
  pub layer : Layer
  pub owner : Option String
  pub updated_at : String

pub record DefaultsFile (Value : Type 0) : Type 0 where
  pub api_version : String
  pub kind : String
  pub metadata : DefaultsMetadata
  pub defaults : Value

pub record LimitsMetadata : Type 0 where
  pub target : String
  pub layer : Layer
  pub owner : Option String
  pub updated_at : String
  pub updated_by : String
  pub reason : String

pub record LimitsFile (Value : Type 0) : Type 0 where
  pub api_version : String
  pub kind : String
  pub metadata : LimitsMetadata
  pub limits : Value

-- Values of YAML, and the texts of files, for a block of the type `Block` in a file of the type `File`
pub record Yaml (Block : Type 0) (File : Type 0 → Type 0) : Type 1 where
  pub Value : Type 0
  pub to_value : Block → Result String Value
  pub from_value : Value → Result String Block
  pub to_string : File Value → Result String String
  pub from_str : String → Result String (File Value)

-- What is written is read back.
pub record IsFaithful {Block : Type 0} {File : Type 0 → Type 0} (yaml : Yaml Block File)
    : Type 0 where
  pub read_value : (b : Block) (v : yaml.Value) → yaml.to_value b ≡ ok v → yaml.from_value v ≡ ok b
  pub read_text :
      (f : File yaml.Value) (s : String) → yaml.to_string f ≡ ok s → yaml.from_str s ≡ ok f

-- Both kinds of file are written alike: the block as a value, the file around it as a text.
module _ {Block : Type 0} {File : Type 0 → Type 0} (yaml : Yaml Block File)
    (around : yaml.Value → File yaml.Value) (block_of : File yaml.Value → yaml.Value) where
  abbrev pub write_yaml : Block → Result AvixError String
  write_yaml b = map_err config_parse (yaml.to_value b) >>= λ v.
      map_err config_parse (yaml.to_string (around v))

  abbrev pub read_block : String → Result AvixError Block
  read_block s = map_err config_parse (yaml.from_str s) >>= λ f.
      map_err config_parse (yaml.from_value (block_of f))

  read_block-write_yaml :
      (b : Block) (s : String)
      → IsFaithful yaml
      → ((v : yaml.Value) → block_of (around v) ≡ v)
      → write_yaml b ≡ ok s
      → read_block s ≡ ok b
  read_block-write_yaml b s faithful inside h = elim (Result-cases (yaml.to_value b)) [
    | inr (e, f) ↦ absurd (ground (arith, f, h))
    | inl (v, f) ↦ elim (Result-cases (yaml.to_string (around v))) [
      | inr (e, g) ↦ absurd (ground (arith, f, g, h))
      | inl (t, g) ↦
          subst (λ x. read_block x ≡ ok b) {x = t} {y = s} (ground (arith, f, g, h))
            (rw (read_block, faithful.read_text (around v) t g, inside v, faithful.read_value b v f)
              refl)
    ]
  ]

module _ {Number : Type 0} (yaml : Yaml (AgentDefaults Number) DefaultsFile) where
  unfoldable pub as_agent_defaults :
      DefaultsFile yaml.Value → Result AvixError (AgentDefaults Number)
  as_agent_defaults file = map_err config_parse (yaml.from_value file.defaults)

  unfoldable pub parse_defaults_file : String → Result AvixError (DefaultsFile yaml.Value)
  parse_defaults_file s = map_err config_parse (yaml.from_str s)

  abbrev pub defaults_file : Layer → Option String → yaml.Value → DefaultsFile yaml.Value
  defaults_file layer owner value = record {
    api_version = "avix/v1";
    kind = "Defaults";
    metadata = record { target = "agent-manifest"; layer = layer; owner = owner; updated_at = "" };
    defaults = value;
  }

  unfoldable pub from_agent_defaults :
      Layer → Option String → AgentDefaults Number → Result AvixError String
  from_agent_defaults layer owner defaults =
      write_yaml yaml (defaults_file layer owner) (λ f. f.defaults) defaults

  -- Defaults that were written to a file are what is read from it, when serde_yaml reads what it writes.
  pub as_agent_defaults-from :
      (layer : Layer) (owner : Option String) (defaults : AgentDefaults Number) (s : String)
      → IsFaithful yaml
      → from_agent_defaults layer owner defaults ≡ ok s
      → (parse_defaults_file s >>= as_agent_defaults) ≡ ok defaults
  unfolding from_agent_defaults parse_defaults_file as_agent_defaults
  as_agent_defaults-from layer owner defaults s faithful h =
      read_block-write_yaml yaml (defaults_file layer owner) (λ f. f.defaults) defaults s faithful
        (λ v. refl) h

module _ {Number : Type 0} (yaml : Yaml (AgentLimits Number) LimitsFile) where
  unfoldable pub as_agent_limits : LimitsFile yaml.Value → Result AvixError (AgentLimits Number)
  as_agent_limits file = map_err config_parse (yaml.from_value file.limits)

  unfoldable pub parse_limits_file : String → Result AvixError (LimitsFile yaml.Value)
  parse_limits_file s = map_err config_parse (yaml.from_str s)

  abbrev pub limits_file : Layer → Option String → yaml.Value → LimitsFile yaml.Value
  limits_file layer owner value = record {
    api_version = "avix/v1";
    kind = "Limits";
    metadata = record {
      target = "agent-manifest";
      layer = layer;
      owner = owner;
      updated_at = "";
      updated_by = "kernel";
      reason = "boot";
    };
    limits = value;
  }

  unfoldable pub from_agent_limits :
      Layer → Option String → AgentLimits Number → Result AvixError String
  from_agent_limits layer owner limits =
      write_yaml yaml (limits_file layer owner) (λ f. f.limits) limits

  -- Limits that were written to a file are what is read from it, when serde_yaml reads what it writes.
  pub as_agent_limits-from :
      (layer : Layer) (owner : Option String) (limits : AgentLimits Number) (s : String)
      → IsFaithful yaml
      → from_agent_limits layer owner limits ≡ ok s
      → (parse_limits_file s >>= as_agent_limits) ≡ ok limits
  unfolding from_agent_limits parse_limits_file as_agent_limits
  as_agent_limits-from layer owner limits s faithful h =
      read_block-write_yaml yaml (limits_file layer owner) (λ f. f.limits) limits s faithful
        (λ v. refl) h

-- `tenths` makes a float of a number of tenths.
unfoldable pub system_agent_defaults :
    {Number : Type 0} → (tenths : ℕ → Number) → AgentDefaults Number
system_agent_defaults tenths = record {
  entrypoint = some (record {
    model_preference = some "claude-sonnet-4";
    min_context_tokens = some 8000;
    max_tool_chain = some 5;
  });
  memory = some (record {
    episodic_enabled = some true;
    semantic_enabled = some true;
    preferences_enabled = some true;
    auto_inject_at_spawn = some true;
    auto_log_on_session_end = some false;
  });
  snapshot = some (record {
    enabled = some false;
    auto_snapshot_interval_sec = some 0;
    restore_on_crash = some false;
  });
  environment = some (record { temperature = some (tenths 7); timeout_sec = some 300 });
  permissions_hint = some (record { owner = some "rw"; crew = some "r"; world = some "r--" });
}

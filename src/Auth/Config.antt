-- ===== src/Auth/Config.antt =====
-- crates/avix-core/src/config/auth.rs: the file of identities. The parser of YAML is a parameter.
use avix.Base.{
  String, Bool, true, false, not, ◌||◌, ◌==◌, if◌then◌else◌, List, [], ◌∷◌, ◌≡◌, inl, inr, refl,
  nat_eq, Bool-cases, List-cases, ap, sym, ◌∙◌, arith,
}
use avix.Errors.{AvixError, config_parse, Result, ok, err, map_err, ◌>>=◌, Result-cases}
use avix.Types.Role.{admin, rank}
use avix.Auth.Service.{AuthIdentity}

pub record AuthPolicy : Type 0 where
  pub session_ttl : String
  pub require_tls : Bool

pub record AuthConfig : Type 0 where
  pub api_version : String
  pub kind : String
  pub policy : AuthPolicy
  pub identities : List AuthIdentity

-- `identities.iter().any(|i| i.role == Role::Admin)`
abbrev pub has_admin : List AuthIdentity → Bool
has_admin [] = false
has_admin (i ∷ rest) = rank i.role == rank admin || has_admin rest

unfoldable pub validate_auth_config : AuthConfig → Result AvixError (Unit {0})
validate_auth_config cfg = elim cfg.identities [
  | [] ↦ err (config_parse "identities must not be empty")
  | ◌∷◌ i rest ↦
      if not (has_admin (i ∷ rest))
      then err (config_parse "at least one identity must have role: admin")
      else ok tt
]

unfoldable pub parse_auth_config :
    (String → Result String AuthConfig) → String → Result AvixError AuthConfig
unfolding validate_auth_config
parse_auth_config from_yaml s = do
  cfg ← map_err config_parse (from_yaml s)
  _ ← validate_auth_config cfg
  ok cfg

-- A file that is taken parses, and names an administrator.
pub parse_auth_config_eq_ok :
    (from_yaml : String → Result String AuthConfig) (s : String) (cfg : AuthConfig)
    → parse_auth_config from_yaml s ≡ ok cfg
    → (from_yaml s ≡ ok cfg) × (has_admin cfg.identities ≡ true)
unfolding parse_auth_config validate_auth_config
parse_auth_config_eq_ok from_yaml s cfg h = elim (Result-cases (from_yaml s)) [
  | inr (e, f) ↦ absurd (ground (arith, f, h))
  | inl (c, f) ↦ elim (List-cases c.identities) [
    | inl none_left ↦ absurd (ground (arith, f, none_left, h))
    | inr (i, rest, some_left) ↦ elim (Bool-cases (has_admin (i ∷ rest))) [
      | inr no_admin ↦ absurd (ground (arith, f, some_left, no_admin, h))
      | inl found ↦
          let taken : parse_auth_config from_yaml s ≡ ok c =
            rw (f, parse_auth_config, validate_auth_config, some_left, found) refl in
          let same : c ≡ cfg = ground (arith, sym taken ∙ h) in
          (
            f ∙ ap ok same,
            ap (λ x. has_admin x.identities) (sym same) ∙ ap has_admin some_left ∙ found,
          )
    ]
  ]
]

-- ===== src/Gateway/Validator/Accepted.antt =====
-- Which commands the pipeline accepts, and what it does with the others.
use avix.Base.{
  ℕ, ◌≡◌, ◌↔◌, inl, inr, refl, sym, ap, subst, ◌∙◌, String, Bool, false, arith, eq_iff, Option,
  contains, ◌∷◌, string_eq,
}
use avix.Errors.{AtpError, Result, ok, err, bind_eq_ok, map_err_eq_ok, Result-cases, map_err}
use avix.Gateway.Acl.{fs, check_domain_role, check_admin_port, check_fs_hard_veto}
use avix.Gateway.Replay.{ReplayGuard, check_and_register}
use avix.Gateway.Token.{AtpTokenClaims, Codec, AtpTokenStore, validate_stored}
use avix.Gateway.Validator.{
  AtpCmd, ValidatedCmd, token_error, unwrap_or_empty, gates, admit, checks, validated, register,
  validate_cmd,
}

module _ {Value : Type 0} (path_of : Value → Option String) (cmd : AtpCmd Value)
    (is_admin_port : Bool) where
  gates_iff :
      (claims : AtpTokenClaims)
      → (gates path_of cmd is_admin_port claims ≡ ok tt) ↔ (
          (check_domain_role cmd.domain cmd.op claims.role ≡ ok tt)
          × (check_admin_port cmd.domain cmd.op is_admin_port ≡ ok tt)
          × (cmd.domain ≡ fs
              → check_fs_hard_veto (unwrap_or_empty (path_of cmd.body)) cmd.op ≡ ok tt))
  unfolding gates
  gates_iff claims = ground arith

  admit_iff :
      (bound : String) (c claims : AtpTokenClaims)
      → (admit path_of cmd bound is_admin_port c ≡ ok claims)
        ↔ ((c ≡ claims) × (c.session_id ≡ bound) × (gates path_of cmd is_admin_port c ≡ ok tt))
  unfolding admit
  admit_iff bound c claims = elim (Result-cases (gates path_of cmd is_admin_port c)) [
    | inl (u, e) ↦ rw e (ground (arith, eq_iff c.session_id bound))
    | inr (f, e) ↦ rw e (ground (arith, eq_iff c.session_id bound))
  ]

module _ {Value : Type 0} (codec : Codec) (path_of : Value → Option String) (store : AtpTokenStore)
    (cmd : AtpCmd Value) (bound : String) (is_admin_port : Bool) (now : ℕ) where
  -- Each condition of the pipeline, for the claims of the caller.
  pub record IsAllowed (claims : AtpTokenClaims) : Type 0 where
    pub authentic : validate_stored codec store cmd.token now ≡ ok claims
    pub bound_here : claims.session_id ≡ bound
    pub role_fits : check_domain_role cmd.domain cmd.op claims.role ≡ ok tt
    pub port_fits : check_admin_port cmd.domain cmd.op is_admin_port ≡ ok tt
    pub no_veto :
        cmd.domain ≡ fs → check_fs_hard_veto (unwrap_or_empty (path_of cmd.body)) cmd.op ≡ ok tt

  checks_sound :
      (claims : AtpTokenClaims)
      → checks codec path_of store cmd bound is_admin_port now ≡ ok claims
      → IsAllowed claims
  unfolding checks
  checks_sound claims h =
      let (c, valid, more) =
        bind_eq_ok (map_err token_error (validate_stored codec store cmd.token now)) _ h in
      let (same, bound_here, passed) =
        (admit_iff path_of cmd is_admin_port bound c claims).0 more in
      let (role_fits, port_fits, no_veto) = (gates_iff path_of cmd is_admin_port c).0 passed in
      subst IsAllowed same (record {
        authentic = map_err_eq_ok token_error _ valid;
        bound_here = bound_here;
        role_fits = role_fits;
        port_fits = port_fits;
        no_veto = no_veto;
      })

  checks_complete :
      (claims : AtpTokenClaims)
      → IsAllowed claims
      → checks codec path_of store cmd bound is_admin_port now ≡ ok claims
  unfolding checks
  checks_complete claims a = rw a.authentic (
      (admit_iff path_of cmd is_admin_port bound claims claims).1 (
        refl,
        a.bound_here,
        (gates_iff path_of cmd is_admin_port claims).1 (a.role_fits, a.port_fits, a.no_veto),
      ))

  module _ (guard : ReplayGuard) where
    abbrev outcome : Result AtpError (ValidatedCmd Value) × ReplayGuard
    outcome = validate_cmd codec path_of store cmd guard bound is_admin_port now

    validate_cmd_passed :
        (claims : AtpTokenClaims)
        → checks codec path_of store cmd bound is_admin_port now ≡ ok claims
        → validate_cmd codec path_of store cmd guard bound is_admin_port now
          ≡ register cmd guard (ok claims)
    unfolding validate_cmd
    validate_cmd_passed claims e = ap (register cmd guard) e

    validate_cmd_failed :
        (e : AtpError)
        → checks codec path_of store cmd bound is_admin_port now ≡ err e
        → validate_cmd codec path_of store cmd guard bound is_admin_port now ≡ (err e, guard)
    unfolding validate_cmd
    validate_cmd_failed e h = ap (register cmd guard) h

    register_iff :
        (claims : AtpTokenClaims) (v : ValidatedCmd Value)
        → ((register cmd guard (ok claims)).0 ≡ ok v)
          ↔ ((contains guard.seen cmd.id ≡ false) × (v ≡ validated cmd claims))
    unfolding register check_and_register
    register_iff claims v = ground arith

    -- A command is accepted exactly when its token is authentic, current and not revoked, its session
    -- is the connection's, the role, the port and the file veto let it pass, and its id is new; the
    -- caller's name, role and session are then those of the token.
    pub validate_cmd_iff :
        (v : ValidatedCmd Value)
        → (outcome.0 ≡ ok v) ↔ (
            (claims : AtpTokenClaims) × IsAllowed claims
            × (contains guard.seen cmd.id ≡ false)
            × (v ≡ validated cmd claims))
    validate_cmd_iff v = (forward, backward)
      where
        forward :
            outcome.0 ≡ ok v
            → (claims : AtpTokenClaims) × IsAllowed claims
              × (contains guard.seen cmd.id ≡ false)
              × (v ≡ validated cmd claims)
        forward h = elim (Result-cases (checks codec path_of store cmd bound is_admin_port now)) [
          | inl (claims, e) ↦
              let (fresh, same) =
                (register_iff claims v).0
                  (ap (λ r. r.0) (sym (validate_cmd_passed claims e)) ∙ h) in
              (claims, checks_sound claims e, fresh, same)
          | inr (e, f) ↦ absurd (ground (arith, validate_cmd_failed e f))
        ]

        backward :
            (claims : AtpTokenClaims) × IsAllowed claims
              × (contains guard.seen cmd.id ≡ false)
              × (v ≡ validated cmd claims)
            → outcome.0 ≡ ok v
        backward (claims, allowed, fresh, same) =
            ap (λ r. r.0) (validate_cmd_passed claims (checks_complete claims allowed))
            ∙ (register_iff claims v).1 (fresh, same)

    register_state :
        (claims : AtpTokenClaims)
        → ((e : AtpError)
            → (register cmd guard (ok claims)).0 ≡ err e
            → (register cmd guard (ok claims)).1 ≡ guard)
          × ((v : ValidatedCmd Value)
              → (register cmd guard (ok claims)).0 ≡ ok v
              → (register cmd guard (ok claims)).1.seen ≡ cmd.id ∷ guard.seen)
    unfolding register check_and_register
    register_state claims = ((λ e h. ground arith), (λ v h. ground arith))

    -- A refused command, whatever the reason, leaves the known ids as they were; an accepted one adds
    -- its id and nothing else.
    pub validate_cmd_state :
        ((e : AtpError) → outcome.0 ≡ err e → outcome.1 ≡ guard)
        × ((v : ValidatedCmd Value) → outcome.0 ≡ ok v → outcome.1.seen ≡ cmd.id ∷ guard.seen)
    validate_cmd_state =
        elim (Result-cases (checks codec path_of store cmd bound is_admin_port now)) [
          | inl (claims, e) ↦ rw (validate_cmd_passed claims e) (register_state claims)
          | inr (f, e) ↦
              rw (validate_cmd_failed f e) ((λ e h. refl), (λ v h. absurd (ground arith)))
        ]

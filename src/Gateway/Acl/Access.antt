-- ===== src/Gateway/Acl/Access.antt =====
-- What the role matrix, the admin-port gate and the ownership check let through.
use avix.Base.{◌≤◌, ◌≡◌, ◌≢◌, ◌↔◌, ◌⊎◌, String, Bool, true, false, arith, eq_iff, string_eq}
use avix.Errors.{ok}
use avix.Types.Role.{Role, operator, admin, rank}
use avix.Gateway.Acl.{
  AtpDomain, cap, sys, domain_min_role, check_domain_role, check_ownership, requires_admin_port,
  check_admin_port,
}

-- The role check passes exactly the callers whose role is at least the one that the matrix names.
pub check_domain_role_iff :
    (domain : AtpDomain) (op : String) (caller : Role)
    → (check_domain_role domain op caller ≡ ok tt)
      ↔ (rank (domain_min_role domain op) ≤ rank caller)
unfolding check_domain_role
check_domain_role_iff domain op caller = ground arith

-- A higher role is never refused what a lower role is allowed.
pub check_domain_role_mono :
    (domain : AtpDomain) (op : String) (r q : Role)
    → rank r ≤ rank q
    → check_domain_role domain op r ≡ ok tt
    → check_domain_role domain op q ≡ ok tt
check_domain_role_mono domain op r q h a =
    (check_domain_role_iff domain op q).1 (omega (arith, (check_domain_role_iff domain op r).0 a))

abbrev pub IsReadOnlySysOp : String → Type 0
IsReadOnlySysOp op = (op ≡ "status") ⊎ (op ≡ "logs") ⊎ (op ≡ "service-list") ⊎ (op ≡ "tool-list")

-- Exactly these commands pass the gate of the user port: none of the `cap` domain, the four
-- read-only ones of the `sys` domain, and all of the other domains.
pub check_admin_port_user :
    (domain : AtpDomain) (op : String)
    → (check_admin_port domain op false ≡ ok tt)
      ↔ ((domain ≢ cap) × (domain ≡ sys → IsReadOnlySysOp op))
unfolding check_admin_port requires_admin_port
check_admin_port_user sys op =
    ground
      (arith, eq_iff op "status", eq_iff op "logs", eq_iff op "service-list", eq_iff op "tool-list")
check_admin_port_user domain op = ground arith

-- Whoever gets a `cap` command through both the role matrix and the gate came by the admin port as an
-- operator, or as an admin where the operation is not `inspect`.
pub cap_needs :
    (op : String) (caller : Role) (is_admin_port : Bool)
    → check_domain_role cap op caller ≡ ok tt
    → check_admin_port cap op is_admin_port ≡ ok tt
    → (is_admin_port ≡ true) × (rank operator ≤ rank caller) × (op ≢ "inspect" → caller ≡ admin)
unfolding check_domain_role check_admin_port requires_admin_port domain_min_role
cap_needs op caller is_admin_port h k = ground (arith, eq_iff op "inspect")

-- Access to another's resource needs the operator role; one's own is always allowed.
pub check_ownership_iff :
    (caller : String) (role : Role) (owner : String)
    → (check_ownership caller role owner ≡ ok tt) ↔ ((rank operator ≤ rank role) ⊎ (caller ≡ owner))
unfolding check_ownership
check_ownership_iff caller role owner = ground (arith, eq_iff caller owner)

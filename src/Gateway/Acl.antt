-- ===== src/Gateway/Acl.antt =====
-- crates/avix-core/src/gateway/acl.rs, and the domains of crates/avix-core/src/gateway/atp/types.rs.
pub mod Access
use avix.Base.{
  String, Bool, true, false, not, ◌||◌, ◌&&◌, ◌==◌, string_eq, if◌then◌else◌, ◌+++◌, starts_with,
}
use avix.Errors.{AtpError, atp_error, eperm, Result, ok, err}
use avix.Types.Role.{Role, guest, user, operator, admin, at_least, below, display_role}

pub data AtpDomain : Type 0 where
  auth proc signal fs snap cron users crews cap sys pipe session : AtpDomain

-- The derived `Debug`
debug_domain : AtpDomain → String
debug_domain auth = "Auth"
debug_domain proc = "Proc"
debug_domain signal = "Signal"
debug_domain fs = "Fs"
debug_domain snap = "Snap"
debug_domain cron = "Cron"
debug_domain users = "Users"
debug_domain crews = "Crews"
debug_domain cap = "Cap"
debug_domain sys = "Sys"
debug_domain pipe = "Pipe"
debug_domain session = "Session"

unfoldable pub domain_min_role : AtpDomain → String → Role
domain_min_role auth op = guest
domain_min_role proc op = if op == "list" then guest else if op == "setcap" then operator else user
domain_min_role signal op = user
domain_min_role fs op = if op == "read" || op == "list" || op == "stat" then guest else user
domain_min_role snap op = if op == "delete" then operator else user
domain_min_role cron op = user
domain_min_role users op =
    if op == "list"
    then operator
    else if op == "create" || op == "update" || op == "delete"
    then admin
    else user
domain_min_role crews op =
    if op == "create" || op == "update" || op == "delete" || op == "join" || op == "leave"
    then admin
    else guest
domain_min_role cap op = if op == "inspect" then operator else admin
domain_min_role sys op =
    if op == "status" || op == "logs" || op == "service-list" || op == "tool-list"
    then user
    else if op == "install" || op == "uninstall" || op == "update"
    then operator
    else admin
domain_min_role pipe op = user
domain_min_role session op = user

unfoldable pub check_domain_role : AtpDomain → String → Role → Result AtpError (Unit {0})
unfolding debug_domain
check_domain_role domain op caller =
    let min_role = domain_min_role domain op in
    if below caller min_role
    then err (
        atp_error eperm (
          "role '"
          +++ display_role caller
          +++ "' cannot invoke domain '"
          +++ debug_domain domain
          +++ "' op '"
          +++ op
          +++ "'"))
    else ok tt

unfoldable pub check_ownership : String → Role → String → Result AtpError (Unit {0})
check_ownership caller_identity caller_role target_owner =
    if at_least caller_role operator
    then ok tt
    else if caller_identity == target_owner
    then ok tt
    else err (
        atp_error eperm (
          "'" +++ caller_identity +++ "' cannot access resources owned by '" +++ target_owner
          +++ "'"))

unfoldable pub check_fs_hard_veto : String → String → Result AtpError (Unit {0})
check_fs_hard_veto path op =
    if not (op == "write")
    then ok tt
    else if starts_with path "/secrets/" || starts_with path "/proc/"
    then err (atp_error eperm ("writes to '" +++ path +++ "' are unconditionally forbidden"))
    else ok tt

unfoldable pub requires_admin_port : AtpDomain → String → Bool
requires_admin_port cap op = true
requires_admin_port sys op =
    not (op == "status" || op == "logs" || op == "service-list" || op == "tool-list")
requires_admin_port domain op = false

unfoldable pub check_admin_port : AtpDomain → String → Bool → Result AtpError (Unit {0})
unfolding debug_domain
check_admin_port domain op is_admin_port =
    if requires_admin_port domain op && not is_admin_port
    then err (
        atp_error eperm
          ("domain '" +++ debug_domain domain +++ "' op '" +++ op +++ "' requires admin port 7701"))
    else ok tt

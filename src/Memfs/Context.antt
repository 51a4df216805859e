-- ===== src/Memfs/Context.antt =====
-- crates/avix-core/src/memfs/context.rs: who calls the file system, and what it may do.
pub mod Access
pub mod Users
use avix.Base.{
  String, string_eq, Bool, true, false, not, ◌&&◌, ◌==◌, if◌then◌else◌, has_text, List, [], ◌∷◌,
  contains, Option, none, some,
}
use avix.Types.Token.{CapabilityToken}

pub record VfsCallerContext : Type 0 where
  pub username : String
  pub crews : List String
  pub is_admin : Bool
  pub token : Option CapabilityToken

abbrev pub from_user_info : String → List String → Bool → VfsCallerContext
from_user_info username crews is_admin = record {
  username = username;
  crews = crews;
  is_admin = is_admin;
  token = none;
}

abbrev pub anonymous : VfsCallerContext
anonymous = record { username = "anonymous"; crews = []; is_admin = false; token = none }

pub record VfsPermissions : Type 0 where
  pub owner : String
  pub crew : String
  pub all : String

abbrev pub default_vfs_permissions : VfsPermissions
default_vfs_permissions = record { owner = "rwx"; crew = "rw-"; all = "r--" }

-- Every arm of the match gives the default.
abbrev pub for_path : String → VfsPermissions
for_path path = default_vfs_permissions

unfoldable pub effective_for : VfsPermissions → VfsCallerContext → String
effective_for perms caller =
    if caller.is_admin
    then "rwx"
    else if caller.username == perms.owner
    then perms.owner
    else if not (perms.crew == "") && contains caller.crews perms.crew
    then perms.crew
    else perms.all

unfoldable pub vfs_can_read : VfsPermissions → VfsCallerContext → Bool
unfolding effective_for
vfs_can_read perms caller = has_text (effective_for perms caller) "r"

unfoldable pub vfs_can_write : VfsPermissions → VfsCallerContext → Bool
unfolding effective_for
vfs_can_write perms caller = has_text (effective_for perms caller) "w"

unfoldable pub vfs_can_execute : VfsPermissions → VfsCallerContext → Bool
unfolding effective_for
vfs_can_execute perms caller = has_text (effective_for perms caller) "x"

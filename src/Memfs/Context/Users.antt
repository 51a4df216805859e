-- ===== src/Memfs/Context/Users.antt =====
-- crates/avix-core/src/memfs/context.rs and the users of crates/avix-core/src/config/users.rs: who calls, by
-- the user that a token was issued for. `users_file` is what is read and parsed of etc/users.yaml, where
-- there is such a file.
use avix.Base.{
  ℕ, String, string_eq, nat_eq, Bool, false, ◌||◌, ◌==◌, if◌then◌else◌, ◌+++◌, List, [], ◌∷◌,
  contains, Option, none, some,
}
use avix.Errors.{AvixError, not_found, Result, ok, ok_or, ◌>>=◌}
use avix.Types.Token.{CapabilityToken}
use avix.Memfs.Context.{VfsCallerContext}

pub data QuotaValue : Type 0 where
  count : ℕ → QuotaValue
  unlimited : String → QuotaValue

pub record UserQuota : Type 0 where
  pub tokens : Option QuotaValue
  pub agents : Option QuotaValue
  pub sessions : Option QuotaValue

pub record User : Type 0 where
  pub username : String
  pub uid : ℕ
  pub workspace : Option String
  pub home : Option String
  pub shell : String
  pub crews : List String
  pub tools : Option (List String)
  pub additional_tools : List String
  pub denied_tools : List String
  pub quota : Option UserQuota

abbrev pub has_all_tools : Option (List String) → Bool
has_all_tools none = false
has_all_tools (some tools) = contains tools "all"

unfoldable pub is_admin_user : User → Bool
is_admin_user user = user.uid == 0 || has_all_tools user.tools

unfoldable pub find_user : String → List User → Option User
find_user username [] = none
find_user username (u ∷ us) =
    let rest = find_user username us in if u.username == username then some u else rest

unfoldable pub caller_from_token :
    (users_file : Option (Result AvixError (List User)))
    → CapabilityToken
    → Result AvixError (Option VfsCallerContext)
unfolding find_user is_admin_user
caller_from_token none token = ok none
caller_from_token (some users_file) token = do
  users ← users_file
  issued_to ← ok_or token.issued_to (not_found "no issued_to in token")
  user ←
      ok_or (find_user issued_to.spawned_by users)
        (not_found ("user '" +++ issued_to.spawned_by +++ "' not found in users.yaml"))
  ok (
      some (record {
        username = user.username;
        crews = user.crews;
        is_admin = is_admin_user user;
        token = some token;
      }))

-- ===== src/Kernel/Approval.antt =====
-- crates/avix-core/src/kernel/approval_token.rs. A token's flag says whether it is used. The fresh id of
-- `create` is an argument.
use avix.Base.{String, Bool, true, false, if◌then◌else◌, string_eq, none, some}
use avix.Base.Dict.{Dict, get, insert, contains_key}
use avix.Errors.{AvixError, capability_denied, Result, ok, err}

abbrev pub ApprovalTokenStore : Type 0
ApprovalTokenStore = Dict String Bool

unfoldable pub create_token : String → ApprovalTokenStore → String × ApprovalTokenStore
create_token token_id store = (token_id, insert token_id false store)

unfoldable pub register_token : String → ApprovalTokenStore → ApprovalTokenStore
register_token token_id store =
    if contains_key token_id store then store else insert token_id false store

unfoldable pub consume :
    String → ApprovalTokenStore → Result AvixError (Unit {0}) × ApprovalTokenStore
consume token_id store = elim (get token_id store) [
  | none ↦ (err (capability_denied "token not found"), store)
  | some used ↦
      if used
      then (err (capability_denied "EUSED: token already used"), store)
      else (ok tt, insert token_id true store)
]

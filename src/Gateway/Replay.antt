-- ===== src/Gateway/Replay.antt =====
-- crates/avix-core/src/gateway/replay.rs: the ids that the gateway has taken on a connection.
use avix.Base.{
  ◌≡◌, ◌↔◌, [], String, true, false, if◌then◌else◌, ◌+++◌, List, contains, contains-add_to, add_to,
  string_eq, ◌==◌, arith, eq_iff,
}
use avix.Errors.{AtpError, atp_error, eparse, Result, ok, err}

pub record ReplayGuard : Type 0 where
  pub seen : List String

abbrev pub new : ReplayGuard
new = record { seen = [] }

unfoldable pub check_and_register : ReplayGuard → String → Result AtpError (Unit {0}) × ReplayGuard
check_and_register guard id =
    if contains guard.seen id
    then (err (atp_error eparse ("duplicate command id '" +++ id +++ "'")), guard)
    else (ok tt, record { seen = add_to id guard.seen })

-- An id is taken exactly when it is new, and from then on it is known, with all the ids before it.
pub check_and_register_lem :
    (guard : ReplayGuard) (id other : String)
    → (((check_and_register guard id).0 ≡ ok tt) ↔ (contains guard.seen id ≡ false))
      × (contains (check_and_register guard id).1.seen other
          ≡ (if id == other then true else contains guard.seen other))
unfolding check_and_register
check_and_register_lem guard id other =
    ground (arith, eq_iff id other, contains-add_to id other guard.seen)

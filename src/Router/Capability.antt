-- ===== src/Router/Capability.antt =====
-- crates/avix-core/src/router/capability.rs.
use avix.Base.{ℕ, String, if◌then◌else◌, string_eq, List, [], ◌∷◌, none, some, contains, ◌+++◌}
use avix.Errors.{AvixError, capability_denied, Result, ok, err}
use avix.Types.Pid.{display_pid}
use avix.Process.Table.{ProcessEntry, ProcessTable, get_entry}

abbrev pub always_present : List String
always_present = "cap/request-tool" ∷ "cap/escalate" ∷ "cap/list" ∷ "job/watch" ∷ []

unfoldable pub check_entry : String → ℕ → ProcessEntry → Result AvixError (Unit {0})
check_entry tool caller_pid entry =
    if contains entry.granted_tools tool
    then ok tt
    else err (
        capability_denied
          ("tool '" +++ tool +++ "' not granted to pid " +++ display_pid caller_pid))

unfoldable pub check_capability : String → ℕ → ProcessTable → Result AvixError (Unit {0})
unfolding check_entry
check_capability tool caller_pid table =
    if contains always_present tool then ok tt else elim (get_entry caller_pid table) [
      | none ↦ err (capability_denied ("no process entry for pid " +++ display_pid caller_pid))
      | some entry ↦ check_entry tool caller_pid entry
    ]

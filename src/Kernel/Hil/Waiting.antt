-- ===== src/Kernel/Hil/Waiting.antt =====
-- crates/avix-core/src/executor/hil: how an agent waits for the answer of a person. `signals` are those that
-- the agent's subscription gives until the time is up, in order; `from_value` stands for serde_json.
use avix.Base.{
  ℕ, String, string_eq, Bool, true, false, ◌&&◌, ◌==◌, if◌then◌else◌, ◌+++◌, List, [], ◌∷◌, ◌++◌,
  nat_eq, Option, none, some,
}
use avix.Base.Json.{
  Json, json_string, json_other, json_object, Members, no_members, member, members_of,
}
use avix.Errors.{AvixError, capability_denied, Result, ok, err}
use avix.Signal.Kind.{SignalKind, sig_resume, Signal}
use avix.Types.Token.{CapabilityToken}
use avix.Kernel.Hil.{HilSignal}

-- `payload[key]`, null where there is no such member
unfoldable pub member_at : Members → String → Json
member_at no_members key = json_other "null"
member_at (member k value rest) key =
    let later = member_at rest key in if k == key then value else later

abbrev pub index : Json → String → Json
index (json_object members) key = member_at members key
index value key = json_other "null"

abbrev pub as_str : Json → Option String
as_str (json_string s) = some s
as_str value = none

abbrev pub text_at : Json → String → Option String
text_at value key = as_str (index value key)

abbrev pub text_or : Option String → String → String
text_or none other = other
text_or (some s) other = s

abbrev pub is_text : Option String → String → Bool
is_text none s = false
is_text (some t) s = t == s

abbrev pub is_resume : SignalKind → Bool
is_resume sig_resume = true
is_resume _ = false

-- The signal that a wait for `hil_id` ends with
abbrev pub is_answer : String → Signal Json → Bool
is_answer hil_id sig = is_resume sig.kind && is_text (text_at sig.payload "hilId") hil_id

-- The payload of the first answer, or none when the time is up
unfoldable pub await_signal : String → List (Signal Json) → Option Json
unfolding member_at
await_signal hil_id [] = none
await_signal hil_id (sig ∷ signals) =
    let later = await_signal hil_id signals in
    if is_answer hil_id sig then some sig.payload else later

pub record ApprovalResult : Type 0 where
  pub approved : Bool
  pub note : Option String
  pub denial_reason : Option String

unfoldable pub await_approval : String → List (Signal Json) → Result AvixError ApprovalResult
unfolding await_signal
await_approval hil_id signals = elim (await_signal hil_id signals) [
  | none ↦ err (capability_denied "HIL approval timed out")
  | some result ↦ ok (record {
    approved = text_or (text_at result "decision") "denied" == "approved";
    note = text_at result "note";
    denial_reason = text_at result "reason";
  })
]

pub record EscalationResult : Type 0 where
  pub selected_option : String
  pub guidance : String

pub record Escalator : Type 0 where
  pub pid : ℕ
  pub pending_messages : List String

unfoldable pub escalate :
    String → List (Signal Json) → Escalator → Result AvixError EscalationResult × Escalator
unfolding await_signal
escalate hil_id signals e = elim (await_signal hil_id signals) [
  | none ↦ (err (capability_denied "escalation timed out"), e)
  | some payload ↦
      let guidance = text_or (text_at payload "guidance") "" in
      (
        ok (record {
          selected_option = text_or (text_at payload "selectedOption") "";
          guidance = guidance;
        }),
        record e {
          pending_messages = e.pending_messages ++ ("[Human guidance]: " +++ guidance) ∷ [];
        },
      )
]

pub record CapabilityUpgrader : Type 0 where
  pub pid : ℕ
  pub token : CapabilityToken

module _ (from_value : Json → Option CapabilityToken) where
  abbrev pub replace_token : Option CapabilityToken → CapabilityUpgrader → CapabilityUpgrader
  replace_token none u = u
  replace_token (some token) u = record u { token = token }

  abbrev pub upgraded : Json → CapabilityUpgrader → Result AvixError (Unit {0}) × CapabilityUpgrader
  upgraded payload u =
      if text_or (text_at payload "decision") "denied" == "approved"
      then (ok tt, replace_token (from_value (index payload "new_capability_token")) u)
      else (err (capability_denied "capability upgrade denied"), u)

  unfoldable pub request_tool :
      String
      → List (Signal Json)
      → CapabilityUpgrader
      → Result AvixError (Unit {0}) × CapabilityUpgrader
  unfolding await_signal
  request_tool hil_id signals u = elim (await_signal hil_id signals) [
    | none ↦ (err (capability_denied "HIL timeout"), u)
    | some payload ↦ upgraded payload u
  ]

-- The signal of the manager, as it goes over the bus
abbrev pub resume_signal : HilSignal → Signal Json
resume_signal s = record {
  target = s.target;
  kind = sig_resume;
  payload = json_object (members_of (("decision", json_string s.decision) ∷ []));
}

-- What the manager has sent to an agent, oldest first
abbrev pub signals_to : ℕ → List HilSignal → List (Signal Json)
signals_to pid [] = []
signals_to pid (s ∷ older) =
    if s.target == pid then signals_to pid older ++ resume_signal s ∷ [] else signals_to pid older

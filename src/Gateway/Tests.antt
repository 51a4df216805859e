-- ===== src/Gateway/Tests.antt =====
-- Tests and witnesses of the gateway, with a codec that is easy to follow: base64 is replaced by a
-- unary code, and a signature is the payload beside the secret.
use Prim.Native.Char.{code}
use avix.Base.{
  ℕ, zero, suc, ◌+◌, ◌≡◌, refl, ap, ◌∙◌, String, false, if◌then◌else◌, ◌==◌, nat_eq, string_eq,
  ◌+++◌, List, [], ◌∷◌, length, Option, none, arith, contains,
}
use mathlib.Core.Path.{ap₂}
use avix.Errors.{ok}
use avix.Types.Role.{user, guest}
use avix.Gateway.Acl.{
  proc, domain_min_role, check_domain_role, check_admin_port, requires_admin_port,
}
use avix.Gateway.Replay.{ReplayGuard, check_and_register}
use avix.Gateway.Token.{
  AtpTokenClaims, Codec, AtpTokenStore, issue, validate, validate_stored, split_dot,
}
use avix.Gateway.Token.Signed.{IsSigned, NoDot, validate-issue, validate_stored_sound}
use avix.Base.{ltb, keep, true, ◌≡◌, All, some}
use avix.Gateway.EventBus.{
  body_text, BusEvent, AtpEventBus, EventFilter, new_bus, agent_output, tool_changed,
  agent_output_chunk, should_receive, publish, push_ring, publish_scoped, event_scope, replay_since,
  ring_capacity, new_event,
}
use avix.Gateway.EventBus.Ring.{latest, is_kept, Published, fresh_bus, one_more, replay_since_lem}
use avix.Gateway.EventBus.Scope.{IsPermitted, helped_none, helped_session, should_receive_lem}
use avix.Gateway.Validator.{AtpCmd, ValidatedCmd, validated, validate_cmd}
use avix.Gateway.Validator.Accepted.{IsAllowed, validate_cmd_iff}
use avix.Gateway.Validator.History.{Arrival, AreFresh, accepted_ids, accepted_ids-AreFresh}

ones : ℕ → String → String
ones zero rest = String.◌∷◌ "b" rest
ones (suc n) rest = String.◌∷◌ "a" (ones n rest)

encode : List ℕ → String
encode [] = ""
encode (n ∷ ns) = ones n (encode ns)

decode_from : ℕ → String → List ℕ
decode_from acc String.[] = []
decode_from acc (String.◌∷◌ c s) =
    if code c == b'b' then acc ∷ decode_from 0 s else decode_from (suc acc) s

decode_from-ones :
    (n acc : ℕ) (rest : String) → decode_from acc (ones n rest) ≡ (acc + n) ∷ decode_from 0 rest
unfolding decode_from ones
decode_from-ones zero acc rest = ap (λ k. k ∷ decode_from 0 rest) (omega arith)
decode_from-ones (suc n) acc rest =
    decode_from-ones n (suc acc) rest ∙ ap (λ k. k ∷ decode_from 0 rest) (omega arith)

decode_from-encode : (bytes : List ℕ) → decode_from 0 (encode bytes) ≡ bytes
unfolding encode decode_from
decode_from-encode [] = refl
decode_from-encode (n ∷ ns) =
    decode_from-ones n 0 (encode ns) ∙ ap₂ (◌∷◌) (omega arith) (decode_from-encode ns)

NoDot-ones : (n : ℕ) (rest : String) → NoDot rest → NoDot (ones n rest)
unfolding ones
NoDot-ones zero rest h = (omega arith, h)
NoDot-ones (suc n) rest h = (omega arith, NoDot-ones n rest h)

NoDot-encode : (bytes : List ℕ) → NoDot (encode bytes)
unfolding encode
NoDot-encode [] = tt
NoDot-encode (n ∷ ns) = NoDot-ones n (encode ns) (NoDot-encode ns)

abbrev alice : AtpTokenClaims
alice = record {
  sub = "alice";
  uid = 1000;
  role = user;
  crews = [];
  session_id = "s-1";
  iat = 10;
  exp = 100;
  scope = [];
}

abbrev codec : Codec
codec = record {
  sign = λ payload secret. payload +++ secret;
  base64_encode = encode;
  base64_decode = λ s. ok (decode_from 0 s);
  to_json = λ c. ok (2 ∷ []);
  from_json = λ b. ok alice;
}

abbrev store : AtpTokenStore
store = record { secret = "k"; revoked = "s-9" ∷ [] }

abbrev list_cmd : AtpCmd (Unit {0})
list_cmd = record {
  msg_type = "cmd";
  id = "c-1";
  token = "aab.aabk";
  domain = proc;
  op = "list";
  body = tt;
}

abbrev path_of : Unit {0} → Option String
path_of _ = none

abbrev guard : ReplayGuard
guard = record { seen = "c-0" ∷ [] }

alice_token : issue codec alice "k" ≡ ok "aab.aabk"
unfolding issue encode ones
alice_token = refl

alice_valid : validate codec "aab.aabk" "k" 50 ≡ ok alice
unfolding validate split_dot decode_from
alice_valid = refl

alice_stored : validate_stored codec store "aab.aabk" 50 ≡ ok alice
unfolding validate_stored validate split_dot decode_from
alice_stored = refl

abbrev alice_validated : ValidatedCmd (Unit {0})
alice_validated = validated list_cmd alice

list-IsAllowed : IsAllowed codec path_of store list_cmd "s-1" false 50 alice
unfolding check_domain_role domain_min_role check_admin_port requires_admin_port
list-IsAllowed = record {
  authentic = alice_stored;
  bound_here = refl;
  role_fits = refl;
  port_fits = refl;
  no_veto = λ e. cc;
}

accepted : (validate_cmd codec path_of store list_cmd guard "s-1" false 50).0 ≡ ok alice_validated
accepted =
    (validate_cmd_iff codec path_of store list_cmd "s-1" false 50 guard alice_validated).1
      (alice, list-IsAllowed, refl, refl)

validate_cmd_iff_example :
    (claims : AtpTokenClaims) × IsAllowed codec path_of store list_cmd "s-1" false 50 claims
    × (contains guard.seen "c-1" ≡ false)
    × (alice_validated ≡ validated list_cmd claims)
validate_cmd_iff_example =
    (validate_cmd_iff codec path_of store list_cmd "s-1" false 50 guard alice_validated).0 accepted

abbrev arrivals : List (Arrival (Unit {0}))
arrivals =
    record { cmd = list_cmd; store = store; now = 50 }
    ∷ record { cmd = list_cmd; store = store; now = 51 }
    ∷ []

accepted_ids-AreFresh_example :
    AreFresh ("c-0" ∷ []) (accepted_ids codec path_of "s-1" false guard arrivals)
accepted_ids-AreFresh_example = accepted_ids-AreFresh codec path_of "s-1" false guard arrivals

-- The second command repeats the first one's id.
one_accepted : accepted_ids codec path_of "s-1" false guard arrivals ≡ "c-1" ∷ []
unfolding accepted_ids validate_cmd check_and_register validate_stored validate split_dot
    decode_from check_domain_role domain_min_role check_admin_port requires_admin_port
one_accepted = refl

validate-issue_example : validate codec "aab.aabk" "k" 50 ≡ ok alice
validate-issue_example =
    validate-issue codec alice "k" "aab.aabk" 50 (λ b. ap ok (decode_from-encode b)) NoDot-encode
      (λ b e. refl) alice_token (omega arith)

validate_stored_sound_example :
    IsSigned codec "aab.aabk" "k" 50 alice × (contains store.revoked "s-1" ≡ false)
validate_stored_sound_example = validate_stored_sound codec store "aab.aabk" 50 alice alice_stored

-- Two events and a chunk between them.
abbrev three : AtpEventBus (Unit {0})
three = publish true (new_event agent_output "s-1" []) (some "s-1") user (
    publish true (new_event agent_output_chunk "s-1" []) (some "s-1") user
      (publish true (new_event tool_changed "" []) none guest new_bus))

three-Published : Published three
three-Published = one_more (new_event agent_output "s-1" []) (some "s-1") user (
    one_more (new_event agent_output_chunk "s-1" []) (some "s-1") user
      (one_more (new_event tool_changed "" []) none guest fresh_bus))

replay_since_lem_example :
    replay_since 0 three
    ≡ keep
        (λ (e : BusEvent (Unit {0})). ltb 0 e.seq)
        (latest ring_capacity (keep is_kept three.sent))
replay_since_lem_example = replay_since_lem 0 three-Published

replayed_seqs : length (replay_since 0 three) ≡ 1
unfolding replay_since publish push_ring
replayed_seqs = refl

abbrev answer : AtpEventBus (Unit {0})
answer = publish_scoped true agent_output "s-1" (("text", body_text "hello") ∷ []) new_bus

abbrev other_user : EventFilter
other_user = record { session_id = "s-2"; role = user; subscribed = "*" ∷ [] }

should_receive_lem_example :
    All (IsPermitted other_user) (keep (should_receive other_user) answer.sent)
should_receive_lem_example =
    should_receive_lem other_user
      (helped_session true agent_output "s-1" (("text", body_text "hello") ∷ []) helped_none)

not_for_others : keep (should_receive other_user) answer.sent ≡ []
unfolding publish_scoped publish event_scope should_receive
not_for_others = refl

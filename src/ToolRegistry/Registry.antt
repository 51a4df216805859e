-- ===== src/ToolRegistry/Registry.antt =====
-- crates/avix-core/src/tool_registry/registry.rs, entry.rs, events.rs and permissions.rs. `Value` is the
-- JSON value of serde_json. A tokio semaphore is an id and the number of permits that it has free, in
-- `semaphores`; a call's guard is the id of its semaphore, since it outlives the record of the tool. The
-- broadcast channel is the list of the events sent, newest first.
pub mod Lookup
pub mod Balance
pub mod Drain
pub mod Race
use avix.Base.{
  ℕ, suc, ◌+◌, ◌-◌, ◌^◌, ◌≡◌, String, Bool, true, false, not, ◌&&◌, ◌||◌, if◌then◌else◌, ◌==◌,
  nat_eq, string_eq, ◌+++◌, List, [], ◌∷◌, ◌++◌, map, Option, none, some, map_option, length, ltb,
  nat_beq,
}
use avix.Base.Dict.{Dict, get, insert, remove, modify, values, contains_key}
use avix.Errors.{AvixError, config_parse, capability_denied, Result, ok, err, ◌>>=◌}
use avix.Types.Tool.{
  ToolState, available, degraded, unavailable, ToolVisibility, everyone, crew, user, namespace,
}

pub record ToolPermissions : Type 0 where
  pub owner : String
  pub crew : String
  pub all : String

abbrev pub default_permissions : ToolPermissions
default_permissions = record { owner = "root"; crew = ""; all = "r--" }

abbrev pub admin_permissions : ToolPermissions
admin_permissions = record { owner = "root"; crew = ""; all = "rwx" }

unfoldable pub parse_rwx : String → Bool
parse_rwx s = s == "r--" || s == "rw-" || s == "rwx"

pub record ToolEntry (Value : Type 0) : Type 0 where
  pub name : String
  pub owner : String
  pub state : ToolState
  pub visibility : ToolVisibility
  pub descriptor : Value
  pub capabilities_required : List String
  pub permissions : ToolPermissions

abbrev pub new_entry :
    {Value : Type 0} → String → String → ToolState → ToolVisibility → Value → ToolEntry Value
new_entry name owner state visibility descriptor = record {
  name = name;
  owner = owner;
  state = state;
  visibility = visibility;
  descriptor = descriptor;
  capabilities_required = [];
  permissions = default_permissions;
}

pub record ToolChangedEvent : Type 0 where
  pub op : String
  pub tools : List String

pub record ToolRecord (Value : Type 0) : Type 0 where
  pub entry : ToolEntry Value
  pub semaphore : ℕ

-- tokio's `Semaphore::MAX_PERMITS` on 64 bits
abbrev pub max_permits : ℕ
max_permits = 2 ^ 61 - 1

pub record ToolRegistry (Value : Type 0) : Type 0 where
  pub inner : Dict String (ToolRecord Value)
  pub semaphores : Dict ℕ ℕ
  pub next_semaphore : ℕ
  pub events : List ToolChangedEvent

pub tool_missing : String → AvixError
tool_missing name = config_parse ("tool not found: " +++ name)

visible_to : ToolVisibility → String → Bool
visible_to everyone who = true
visible_to (user u) who = u == who
visible_to (crew c) who = false

module _ {Value : Type 0} where
  unfoldable pub empty : ToolRegistry Value
  empty = record { inner = []; semaphores = []; next_semaphore = 0; events = [] }

  unfoldable pub send : String → List String → ToolRegistry Value → ToolRegistry Value
  send op tools reg = record reg { events = record { op = op; tools = tools } ∷ reg.events }

  -- One round of the loop of `add`.
  unfoldable pub add_entry : ToolEntry Value → ToolRegistry Value → ToolRegistry Value
  add_entry entry reg = record {
    inner = insert entry.name (record { entry = entry; semaphore = reg.next_semaphore }) reg.inner;
    semaphores = insert reg.next_semaphore max_permits reg.semaphores;
    next_semaphore = suc reg.next_semaphore;
    events = reg.events;
  }

  unfoldable pub add_entries : List (ToolEntry Value) → ToolRegistry Value → ToolRegistry Value
  unfolding add_entry
  add_entries [] reg = reg
  add_entries (entry ∷ entries) reg = add_entries entries (add_entry entry reg)

  unfoldable pub add : List (ToolEntry Value) → ToolRegistry Value → ToolRegistry Value
  unfolding add_entries send
  add entries reg = send "added" (map (λ e. e.name) entries) (add_entries entries reg)

  unfoldable pub lookup : String → ToolRegistry Value → Result AvixError (ToolEntry Value)
  unfolding tool_missing
  lookup name reg = elim (get name reg.inner) [
    | none ↦ err (tool_missing name)
    | some r ↦ ok r.entry
  ]

  unfoldable pub lookup_for_user :
      String → String → ToolRegistry Value → Result AvixError (ToolEntry Value)
  unfolding lookup visible_to
  lookup_for_user name who reg = do
    entry ← lookup name reg
    if visible_to entry.visibility who
        then ok entry
        else err (capability_denied (name +++ " not visible to " +++ who))

  abbrev pub marked : ToolRecord Value → ToolRecord Value
  marked r = record r { entry = record r.entry { state = unavailable } }

  -- Phase 1 of `remove`
  unfoldable pub mark_unavailable : List String → ToolRegistry Value → ToolRegistry Value
  mark_unavailable [] reg = reg
  mark_unavailable (name ∷ names) reg =
      mark_unavailable names (record reg { inner = modify name marked reg.inner })

  abbrev pub permits : ℕ → ToolRegistry Value → ℕ
  permits semaphore reg = elim (get semaphore reg.semaphores) [ none ↦ max_permits | some n ↦ n ]

  -- Phase 2 of `remove`: the semaphore that the loop for one name takes from the record, once, and polls
  abbrev pub semaphore_of : String → ToolRegistry Value → Option ℕ
  semaphore_of name reg = map_option (λ (r : ToolRecord Value). r.semaphore) (get name reg.inner)

  -- Whether a poll of the semaphore ends the loop
  unfoldable pub is_drained : Option ℕ → ToolRegistry Value → Bool
  is_drained none reg = true
  is_drained (some semaphore) reg = nat_beq (permits semaphore reg) max_permits

  abbrev pub removed_event : List String → String → ToolRegistry Value → ToolRegistry Value
  removed_event [] reason reg = reg
  removed_event (name ∷ names) reason reg = send ("removed: " +++ reason) (name ∷ names) reg

  -- Phase 3 of `remove`: the names that were there, and the registry without them
  pub remove_names : List String → ToolRegistry Value → List String × ToolRegistry Value
  remove_names [] reg = ([], reg)
  remove_names (name ∷ names) reg =
      let here = contains_key name reg.inner in
      let (removed, reg') = remove_names names (record reg { inner = remove name reg.inner }) in
      (if here then name ∷ removed else removed, reg')

  unfoldable pub remove_entries : List String → String → ToolRegistry Value → ToolRegistry Value
  unfolding remove_names send
  remove_entries names reason reg =
      let (removed, reg') = remove_names names reg in removed_event removed reason reg'

  -- Are all the loops of phase 2 at their end?
  abbrev pub all_drained : List String → ToolRegistry Value → Bool
  all_drained [] reg = true
  all_drained (name ∷ names) reg = is_drained (semaphore_of name reg) reg && all_drained names reg

  -- `remove` where nothing else happens meanwhile: none where it waits for calls that are running.
  unfoldable pub remove_tools :
      List String → String → Bool → ToolRegistry Value → Option (ToolRegistry Value)
  unfolding mark_unavailable is_drained remove_entries
  remove_tools names reason drain reg =
      let marked_reg = mark_unavailable names reg in
      if not drain
      then some (remove_entries names reason reg)
      else if all_drained names marked_reg
      then some (remove_entries names reason marked_reg)
      else none

  abbrev pub take_permit : ℕ → ToolRegistry Value → ToolRegistry Value
  take_permit semaphore reg = record reg {
    semaphores = insert semaphore (permits semaphore reg - 1) reg.semaphores;
  }

  -- `acquire_owned` waits where no permit is free: none.
  unfoldable pub acquire :
      String → ToolRegistry Value → Option (Result AvixError ℕ × ToolRegistry Value)
  unfolding tool_missing
  acquire name reg = elim (get name reg.inner) [
    | none ↦ some (err (tool_missing name), reg)
    | some r ↦
        if ltb 0 (permits r.semaphore reg)
        then some (ok r.semaphore, take_permit r.semaphore reg)
        else none
  ]

  -- Dropping the guard of a call
  unfoldable pub release : ℕ → ToolRegistry Value → ToolRegistry Value
  release semaphore reg = record reg {
    semaphores = insert semaphore (permits semaphore reg + 1) reg.semaphores;
  }

  unfoldable pub set_state :
      String → ToolState → ToolRegistry Value → Result AvixError (Unit {0}) × ToolRegistry Value
  unfolding tool_missing
  set_state name state reg = elim (get name reg.inner) [
    | none ↦ (err (tool_missing name), reg)
    | some r ↦ (
      ok tt,
      record reg {
        inner = insert name (record r { entry = record r.entry { state = state } }) reg.inner;
      },
    )
  ]

  pub tool_count : ToolRegistry Value → ℕ
  tool_count reg = length reg.inner

  unfoldable pub get_all_entries : ToolRegistry Value → List (ToolEntry Value)
  get_all_entries reg = map (λ r. r.entry) (values reg.inner)

-- ===== src/Session/Tests.antt =====
-- Tests and witnesses of the records of sessions.
use avix.Base.{true, ◌≡◌, refl, string_eq, nat_eq, [], ◌∷◌}
use avix.Session.Record.{
  SessionRecord, new_session, add_participant, add_pid, set_primary, remove_pid,
}
use avix.Session.Record.Members.{
  starts, steps, adds_participant, adds_pid, sets_primary, IsWell, reached-IsWell,
}

abbrev begun : SessionRecord
begun = new_session "s-1" "ann" "scout" "notes" "write notes" 7 100

abbrev joined : SessionRecord
joined = add_participant "writer" true 101 begun

abbrev grown : SessionRecord
grown = add_pid 8 102 joined

grown_pids : grown.pids ≡ 7 ∷ 8 ∷ []
unfolding add_pid add_participant new_session
grown_pids = refl

-- A stranger does not become the primary agent.
stranger_is_refused : (set_primary "stranger" 103 grown).primary_agent ≡ "writer"
unfolding set_primary add_pid add_participant new_session
stranger_is_refused = refl

owner_leaves : (remove_pid 7 103 grown).pids ≡ 8 ∷ []
unfolding remove_pid add_pid add_participant new_session
owner_leaves = refl

reached-IsWell_example : IsWell (set_primary "scout" 104 grown)
reached-IsWell_example = reached-IsWell (
    steps
      (steps
        (steps (starts "s-1" "ann" "scout" "notes" "write notes" 7 100)
          (adds_participant "writer" true 101 begun))
        (adds_pid 8 102 joined))
      (sets_primary "scout" 104 grown))

-- ===== src/Session/Record/Members.antt =====
-- crates/avix-core/src/session/record.rs: who takes part in a session.
use avix.Base.{
  ℕ, suc, ◌≤◌, String, string_eq, nat_eq, Keyed, Bool, true, false, not, ◌||◌, ◌==◌, if◌then◌else◌,
  List, [], ◌∷◌, ◌++◌, contains, contains-append, count, keep, ◌≡◌, ◌⊎◌, inl, inr, refl, arith,
  Bool-cases, beq_self,
}
use avix.Session.Record.{
  PidInvocationMeta, SessionStatus, SessionRecord, new_session, mark, add_invocation_pid, add_pid,
  remove_pid, add_participant, set_primary, add_tokens,
}

module _ {A : Type 0} ⦃e : Keyed A⦄ where
  count_absent : (a : A) (xs : List A) → contains xs a ≡ false → count a xs ≡ 0
  count_absent a [] h = refl
  count_absent a (x ∷ xs) h = ground (arith, count_absent a xs)

  count-append :
      (a b : A) (xs : List A)
      → count a (xs ++ b ∷ []) ≡ (if b == a then suc (count a xs) else count a xs)
  count-append a b [] = ground arith
  count-append a b (x ∷ xs) = ground (arith, count-append a b xs)

  abbrev IsDistinct : List A → Type 0
  IsDistinct xs = (a : A) → count a xs ≤ 1

  append-IsDistinct :
      (b : A) (xs : List A)
      → IsDistinct xs
      → IsDistinct (if contains xs b then xs else xs ++ b ∷ [])
  append-IsDistinct b xs h a =
      ground (arith, h a, count-append a b xs, count_absent a xs, e.equal_iff b a)

  count-keep : (p : A → Bool) (a : A) (xs : List A) → count a (keep p xs) ≤ count a xs
  count-keep p a [] = omega arith
  count-keep p a (x ∷ xs) = ground (arith, count-keep p a xs)

-- What can happen to the record of a session.
pub data Step : SessionRecord → SessionRecord → Type 0 where
  marks : (s : SessionStatus) (now : ℕ) (r : SessionRecord) → Step r (mark s now r)
  adds_meta :
      (m : PidInvocationMeta) (now : ℕ) (r : SessionRecord) → Step r (add_invocation_pid m now r)
  adds_pid : (pid now : ℕ) (r : SessionRecord) → Step r (add_pid pid now r)
  removes_pid : (pid now : ℕ) (r : SessionRecord) → Step r (remove_pid pid now r)
  adds_participant :
      (name : String) (primary : Bool) (now : ℕ) (r : SessionRecord)
      → Step r (add_participant name primary now r)
  sets_primary : (name : String) (now : ℕ) (r : SessionRecord) → Step r (set_primary name now r)
  adds_tokens : (n now : ℕ) (r : SessionRecord) → Step r (add_tokens n now r)

pub data Reach : SessionRecord → Type 0 where
  starts :
      (id username agent title goal : String) (pid now : ℕ)
      → Reach (new_session id username agent title goal pid now)
  steps : {r s : SessionRecord} → Reach r → Step r s → Reach s

pub record IsWell (r : SessionRecord) : Type 0 where
  pub primary :
      (r.primary_agent ≡ r.origin_agent) ⊎ (contains r.participants r.primary_agent ≡ true)
  pub once : IsDistinct r.participants
  pub pids_once : IsDistinct r.pids

new_session-IsWell :
    (id username agent title goal : String) (pid now : ℕ)
    → IsWell (new_session id username agent title goal pid now)
unfolding new_session
new_session-IsWell id username agent title goal pid now = record {
  primary = inl refl;
  once = λ a. omega arith;
  pids_once = λ a. ground arith;
}

add_participant-IsWell :
    (name : String) (primary : Bool) (now : ℕ) (r : SessionRecord)
    → IsWell r
    → IsWell (add_participant name primary now r)
unfolding add_participant
add_participant-IsWell name primary now r h = record {
  primary = ground (
    arith,
    h.primary,
    contains-append r.participants (name ∷ []) name,
    contains-append r.participants (name ∷ []) r.primary_agent,
    beq_self name,
  );
  once = append-IsDistinct name r.participants h.once;
  pids_once = h.pids_once;
}

set_primary-IsWell :
    (name : String) (now : ℕ) (r : SessionRecord) → IsWell r → IsWell (set_primary name now r)
unfolding set_primary
set_primary-IsWell name now r h =
    elim (Bool-cases (contains r.participants name || name == r.origin_agent)) [
      | inl t ↦
          rw (t, set_primary)
            (record {
              primary = ground (arith, t, string_eq.equal_iff name r.origin_agent);
              once = h.once;
              pids_once = h.pids_once;
            })
      | inr f ↦ rw (f, set_primary) h
    ]

Step-IsWell : {r s : SessionRecord} → Step r s → IsWell r → IsWell s
unfolding mark add_invocation_pid add_pid remove_pid add_tokens
Step-IsWell (marks s now r) h = record {
  primary = h.primary;
  once = h.once;
  pids_once = h.pids_once;
}
Step-IsWell (adds_meta m now r) h = record {
  primary = h.primary;
  once = h.once;
  pids_once = h.pids_once;
}
Step-IsWell (adds_pid pid now r) h = record {
  primary = h.primary;
  once = h.once;
  pids_once = append-IsDistinct pid r.pids h.pids_once;
}
Step-IsWell (removes_pid pid now r) h = record {
  primary = h.primary;
  once = h.once;
  pids_once = λ a. omega (arith, h.pids_once a, count-keep (λ p. not (p == pid)) a r.pids);
}
Step-IsWell (adds_participant name primary now r) h = add_participant-IsWell name primary now r h
Step-IsWell (sets_primary name now r) h = set_primary-IsWell name now r h
Step-IsWell (adds_tokens n now r) h = record {
  primary = h.primary;
  once = h.once;
  pids_once = h.pids_once;
}

-- At every point of a session's life the primary agent is the one that started it or a participant, no
-- participant is listed twice, and no pid is.
pub reached-IsWell : {r : SessionRecord} → Reach r → IsWell r
reached-IsWell (starts id username agent title goal pid now) =
    new_session-IsWell id username agent title goal pid now
reached-IsWell (steps h s) = Step-IsWell s (reached-IsWell h)

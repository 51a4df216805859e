-- ===== src/Pipe/Channel/Order.antt =====
-- Messages leave a pipe in the order in which they were taken, whatever the readers and writers do.
use avix.Base.{
  append_assoc, append_nil, ◌≤◌, ◌<◌, ◌⊎◌, List-cases, String, List, [], ◌∷◌, ◌++◌, Option, none,
  some, ◌≡◌, sym, ◌∙◌, ap, arith, length, length-append, ltb, inl, inr, Bool-cases,
}
use avix.Errors.{ok, err}
use avix.Pipe.Channel.{Pipe, PipeError, closed_pipe, full_pipe, Sent, write, read, close}

pub data Use : Type 0 where
  writes : String → Use
  reads closes : Use

abbrev add_sent : String → Sent → List String → List String
add_sent msg (ok _, pipe) later = msg ∷ later
add_sent msg (err _, pipe) later = later

pub record Outcome : Type 0 where
  pub left : Pipe
  pub accepted : List String
  pub delivered : List String

abbrev after_read : Pipe → Option (String × Pipe) → Pipe
after_read pipe none = pipe
after_read pipe (some (msg, pipe')) = pipe'

abbrev add_read : Option (String × Pipe) → List String → List String
add_read none later = later
add_read (some (msg, pipe)) later = msg ∷ later

-- A use of the pipe after another; a reader that finds nothing gives up.
unfoldable pub uses : List Use → Pipe → Outcome
uses [] pipe = record { left = pipe; accepted = []; delivered = [] }
uses (writes msg ∷ later) pipe =
    let sent = write msg pipe in
    let rest = uses later sent.1 in record rest { accepted = add_sent msg sent rest.accepted }
uses (reads ∷ later) pipe =
    let found = read pipe in
    let rest = uses later (after_read pipe found) in
    record rest { delivered = add_read found rest.delivered }
uses (closes ∷ later) pipe = uses later (close pipe)

-- The pipe with one more message
abbrev fuller : String → Pipe → Pipe
fuller msg pipe = record pipe { queue = pipe.queue ++ msg ∷ [] }

write-cases :
    (msg : String) (pipe : Pipe)
    → ((e : PipeError) × (write msg pipe ≡ (err e, pipe)))
      ⊎ ((write msg pipe ≡ (ok tt, fuller msg pipe)) × (length pipe.queue < pipe.capacity))
unfolding write
write-cases msg pipe = elim (Bool-cases pipe.closed) [
  | inl e ↦ inl (closed_pipe pipe.id, ground arith)
  | inr e ↦ elim (Bool-cases (ltb (length pipe.queue) pipe.capacity)) [
    | inl room ↦ inr (ground arith, ground arith)
    | inr no_room ↦ inl (full_pipe pipe.id, ground arith)
  ]
]

read-cases :
    (pipe : Pipe)
    → ((read pipe ≡ none)
        ⊎ ((msg : String) × (rest : List String) × (read pipe
              ≡ some (msg, record pipe { queue = rest }))
            × (pipe.queue ≡ msg ∷ rest)))
unfolding read
read-cases pipe = elim (List-cases pipe.queue) [
  | inl e ↦ inl (ground arith)
  | inr (msg, rest, e) ↦ inr (msg, rest, ground arith, e)
]

-- What the readers have got and what is still in the pipe is together what was in it and what the writers
-- were told is accepted, in that order; a pipe that holds no more than its capacity never comes to hold
-- more.
pub uses_lem :
    (history : List Use) (pipe : Pipe)
    → length pipe.queue ≤ pipe.capacity
    → let outcome = uses history pipe in
      (outcome.delivered ++ outcome.left.queue ≡ pipe.queue ++ outcome.accepted)
      × (length outcome.left.queue ≤ pipe.capacity)
unfolding uses close
uses_lem [] pipe h = (sym (append_nil pipe.queue), h)
uses_lem (writes msg ∷ later) pipe h = elim (write-cases msg pipe) [
  | inl (e, same) ↦ rw same (uses_lem later pipe h)
  | inr (more, room) ↦
      let (order, bound) =
        uses_lem later (fuller msg pipe) (omega (arith, length-append pipe.queue (msg ∷ []))) in
      rw more (order ∙ append_assoc pipe.queue (msg ∷ []) _, bound)
]
uses_lem (reads ∷ later) pipe h = elim (read-cases pipe) [
  | inl none_there ↦ rw none_there (uses_lem later pipe h)
  | inr (msg, rest, found, queue) ↦
      let (order, bound) = uses_lem later (record pipe { queue = rest }) (ground arith) in
      rw (found, queue) (ap (λ l. msg ∷ l) order, bound)
]
uses_lem (closes ∷ later) pipe h = uses_lem later (close pipe) h

-- ===== src/Pipe/Channel.antt =====
-- crates/avix-core/src/pipe/channel.rs. The channel is the list of the messages in it, oldest first. The
-- pipe holds both ends, so the channel itself never closes.
pub mod Order
use avix.Base.{
  ℕ, String, Bool, true, false, if◌then◌else◌, ltb, List, [], ◌∷◌, ◌++◌, Option, none, some, length,
}
use avix.Errors.{Result, ok, err}

pub data PipeError : Type 0 where
  closed_pipe full_pipe : String → PipeError

pub record Pipe : Type 0 where
  pub id : String
  pub owner_pid : ℕ
  pub capacity : ℕ
  pub queue : List String
  pub closed : Bool

abbrev pub new_pipe : String → ℕ → ℕ → Pipe
new_pipe id owner_pid capacity = record {
  id = id;
  owner_pid = owner_pid;
  capacity = capacity;
  queue = [];
  closed = false;
}

abbrev pub Sent : Type 0
Sent = Result PipeError (Unit {0}) × Pipe

unfoldable pub write : String → Pipe → Sent
write msg pipe =
    if pipe.closed
    then (err (closed_pipe pipe.id), pipe)
    else if ltb (length pipe.queue) pipe.capacity
    then (ok tt, record pipe { queue = pipe.queue ++ msg ∷ [] })
    else (err (full_pipe pipe.id), pipe)

-- None where the sender waits for space.
unfoldable pub send_blocking : String → Pipe → Option Sent
send_blocking msg pipe =
    if pipe.closed
    then some (err (closed_pipe pipe.id), pipe)
    else if ltb (length pipe.queue) pipe.capacity
    then some (ok tt, record pipe { queue = pipe.queue ++ msg ∷ [] })
    else none

-- None where the reader waits for a message.
unfoldable pub read : Pipe → Option (String × Pipe)
read pipe = elim pipe.queue [ [] ↦ none | msg ∷ rest ↦ some (msg, record pipe { queue = rest }) ]

unfoldable pub close : Pipe → Pipe
close pipe = record pipe { closed = true }

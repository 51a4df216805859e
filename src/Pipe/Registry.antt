-- ===== src/Pipe/Registry.antt =====
-- crates/avix-core/src/pipe/registry.rs. The id of a new pipe is an argument.
use avix.Base.{ℕ, String, string_eq, Option, none, some, length}
use avix.Base.Dict.{Dict, get, insert, remove}
use avix.Errors.{Result, err}
use avix.Pipe.Channel.{PipeError, closed_pipe, Pipe, new_pipe, write, read}

abbrev pub PipeRegistry : Type 0
PipeRegistry = Dict String Pipe

unfoldable pub open_pipe : String → ℕ → ℕ → PipeRegistry → String × PipeRegistry
open_pipe id owner_pid capacity pipes = (id, insert id (new_pipe id owner_pid capacity) pipes)

unfoldable pub write_pipe :
    String → String → PipeRegistry → Result PipeError (Unit {0}) × PipeRegistry
unfolding write
write_pipe id msg pipes = elim (get id pipes) [
  | none ↦ (err (closed_pipe id), pipes)
  | some pipe ↦ let (answer, pipe') = write msg pipe in (answer, insert id pipe' pipes)
]

abbrev received :
    String → PipeRegistry → Option (String × Pipe) → Option (Option String × PipeRegistry)
received id pipes none = none
received id pipes (some (msg, pipe)) = some (some msg, insert id pipe pipes)

-- None where the reader waits for a message.
unfoldable pub read_pipe : String → PipeRegistry → Option (Option String × PipeRegistry)
unfolding read
read_pipe id pipes = elim (get id pipes) [
  | none ↦ some (none, pipes)
  | some pipe ↦ received id pipes (read pipe)
]

-- The closed pipe is dropped with its record.
unfoldable pub close_pipe : String → PipeRegistry → PipeRegistry
close_pipe id pipes = remove id pipes

pub pipe_count : PipeRegistry → ℕ
pipe_count pipes = length pipes

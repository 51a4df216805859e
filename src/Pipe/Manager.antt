-- ===== src/Pipe/Manager.antt =====
-- crates/avix-core/src/pipe/manager.rs, with Signal of signal/kind.rs as far as it is sent here. A method
-- is one step: a reader or a writer that has to wait gives none. The writing of the manifest through the
-- file system, and the parsers of JSON and YAML, are arguments. The id of a new pipe is one too.
pub mod Access
pub mod Exit
use avix.Base.{
  ℕ, String, Bool, true, false, ◌||◌, if◌then◌else◌, ◌==◌, string_eq, nat_eq, not, List, [], ◌∷◌,
  ◌++◌, map, keep, Option, none, some, length, ◌+++◌,
}
use avix.Base.Dict.{Dict, get, insert, remove}
use avix.Errors.{AvixError, not_found, capability_denied, config_parse, io, Result, ok, err, ◌>>=◌}
use avix.Types.Pid.{display_pid}
use avix.Pipe.Config.{
  BackpressurePolicy, block, drop, error, PipeEncoding, text, json, yaml, PipeConfig, can_write,
  can_read, partner,
}
use avix.Pipe.Channel.{
  PipeError, closed_pipe, full_pipe, Pipe, new_pipe, Sent, write, send_blocking, read, close,
}

pub record PipeRecord : Type 0 where
  pub pipe : Pipe
  pub config : PipeConfig

abbrev pub PipeManager : Type 0
PipeManager = Dict String PipeRecord

pub data ReadResult : Type 0 where
  message : String → ReadResult
  no_more time_out : ReadResult

-- The signal SIGPIPE with its payload.
pub record PipeSignal : Type 0 where
  pub target : ℕ
  pub pipe_id : String
  pub reason : String

pub record Parsers : Type 0 where
  pub json_error : String → Option String
  pub yaml_error : String → Option String

abbrev pub not_there : String → AvixError
not_there pipe_id = not_found ("pipe '" +++ pipe_id +++ "' not found")

abbrev pub write_denied : String → ℕ → AvixError
write_denied pipe_id pid =
    capability_denied
      ("pid " +++ display_pid pid +++ " is not allowed to write to pipe '" +++ pipe_id +++ "'")

abbrev pub read_denied : String → ℕ → AvixError
read_denied pipe_id pid =
    capability_denied
      ("pid " +++ display_pid pid +++ " is not allowed to read from pipe '" +++ pipe_id +++ "'")

abbrev parsed : String → Option String → Result AvixError (Unit {0})
parsed what none = ok tt
parsed what (some e) = err (config_parse (what +++ e))

unfoldable pub validate_encoding : Parsers → String → PipeEncoding → Result AvixError (Unit {0})
validate_encoding parsers msg json =
    parsed "pipe encoding=json: invalid JSON: " (parsers.json_error msg)
validate_encoding parsers msg yaml =
    parsed "pipe encoding=yaml: invalid YAML: " (parsers.yaml_error msg)
validate_encoding parsers msg text = ok tt

unfoldable pub open_as :
    (PipeConfig → String → Result AvixError (Unit {0}))
    → String
    → PipeConfig
    → PipeManager
    → Result AvixError String × PipeManager
open_as write_manifest pipe_id config pipes = elim (write_manifest config pipe_id) [
  | err e ↦ (err e, pipes)
  | ok _ ↦ (
    ok pipe_id,
    insert pipe_id
        (record { pipe = new_pipe pipe_id config.source_pid config.buffer_tokens; config = config })
        pipes,
  )
]

abbrev display_pipe_error : PipeError → String
display_pipe_error (closed_pipe id) = "SIGPIPE: pipe " +++ id +++ " is closed"
display_pipe_error (full_pipe id) = "pipe " +++ id +++ " is full (backpressure)"

abbrev write_error : String → PipeError → AvixError
write_error pipe_id (full_pipe _) = io ("pipe '" +++ pipe_id +++ "' is full")
write_error pipe_id (closed_pipe _) = io ("pipe '" +++ pipe_id +++ "' is closed")

abbrev Answer : Type 0
Answer = Result AvixError (Unit {0}) × PipeManager

abbrev put_back : String → PipeRecord → PipeManager → Pipe → PipeManager
put_back pipe_id rec pipes pipe = insert pipe_id (record rec { pipe = pipe }) pipes

abbrev blocked : String → PipeRecord → PipeManager → Option Sent → Option Answer
blocked pipe_id rec pipes none = none
blocked pipe_id rec pipes (some (ok _, pipe)) = some (ok tt, put_back pipe_id rec pipes pipe)
blocked pipe_id rec pipes (some (err e, pipe)) =
    some
      (err (io ("pipe write failed: " +++ display_pipe_error e)), put_back pipe_id rec pipes pipe)

abbrev dropped : String → PipeRecord → PipeManager → Sent → Option Answer
dropped pipe_id rec pipes (answer, pipe) = some (ok tt, put_back pipe_id rec pipes pipe)

abbrev reported : String → PipeRecord → PipeManager → Sent → Option Answer
reported pipe_id rec pipes (ok _, pipe) = some (ok tt, put_back pipe_id rec pipes pipe)
reported pipe_id rec pipes (err e, pipe) =
    some (err (write_error pipe_id e), put_back pipe_id rec pipes pipe)

-- The three policies
unfoldable pub send_by_policy : String → PipeRecord → String → PipeManager → Option Answer
unfolding write send_blocking
send_by_policy pipe_id rec msg pipes = elim rec.config.backpressure [
  | block ↦ blocked pipe_id rec pipes (send_blocking msg rec.pipe)
  | drop ↦ dropped pipe_id rec pipes (write msg rec.pipe)
  | error ↦ reported pipe_id rec pipes (write msg rec.pipe)
]

-- `write` of the manager; none where the writer waits for space.
unfoldable pub write_as : Parsers → String → ℕ → String → PipeManager → Option Answer
unfolding validate_encoding send_by_policy
write_as parsers pipe_id caller_pid msg pipes = elim (get pipe_id pipes) [
  | none ↦ some (err (not_there pipe_id), pipes)
  | some rec ↦
      if not (can_write rec.config caller_pid)
      then some (err (write_denied pipe_id caller_pid), pipes)
      else elim (validate_encoding parsers msg rec.config.encoding) [
        | err e ↦ some (err e, pipes)
        | ok _ ↦ send_by_policy pipe_id rec msg pipes
      ]
]

abbrev received :
    String
    → PipeRecord
    → PipeManager
    → Option (String × Pipe)
    → Result AvixError ReadResult × PipeManager
received pipe_id rec pipes none = (ok time_out, pipes)
received pipe_id rec pipes (some (msg, pipe)) = (ok (message msg), put_back pipe_id rec pipes pipe)

-- `read` of the manager, where nothing comes while the reader waits.
unfoldable pub read_as : String → ℕ → PipeManager → Result AvixError ReadResult × PipeManager
unfolding read
read_as pipe_id caller_pid pipes = elim (get pipe_id pipes) [
  | none ↦ (err (not_there pipe_id), pipes)
  | some rec ↦
      if not (can_read rec.config caller_pid)
      then (err (read_denied pipe_id caller_pid), pipes)
      else if rec.pipe.closed
      then (ok no_more, pipes)
      else received pipe_id rec pipes (read rec.pipe)
]

abbrev pub sigpipe : Option ℕ → String → String → List PipeSignal
sigpipe none pipe_id reason = []
sigpipe (some pid) pipe_id reason = record { target = pid; pipe_id = pipe_id; reason = reason } ∷ []

-- `close` of the manager, with the signals that it sends where it is given signal channels; the update of
-- the manifest does nothing in the code.
unfoldable pub close_as :
    String → ℕ → String → PipeManager → Result AvixError (Unit {0}) × PipeManager × List PipeSignal
close_as pipe_id caller_pid reason pipes = elim (get pipe_id pipes) [
  | none ↦ (err (not_there pipe_id), pipes, [])
  | some rec ↦ (ok tt, remove pipe_id pipes, sigpipe (partner rec.config caller_pid) pipe_id reason)
]

abbrev pub is_endpoint : ℕ → String × PipeRecord → Bool
is_endpoint pid (id, rec) = rec.config.source_pid == pid || rec.config.target_pid == pid

unfoldable pub close_all : List String → ℕ → PipeManager → PipeManager × List PipeSignal
unfolding close_as
close_all [] pid pipes = (pipes, [])
close_all (id ∷ ids) pid pipes =
    let (answer, pipes', signals) = close_as id pid "owner_exited" pipes in
    let (pipes'', more) = close_all ids pid pipes' in (pipes'', signals ++ more)

unfoldable pub close_pipes_for_pid : ℕ → PipeManager → PipeManager × List PipeSignal
unfolding close_all
close_pipes_for_pid pid pipes = close_all (map (λ p. p.0) (keep (is_endpoint pid) pipes)) pid pipes

-- ===== src/Pipe/Manager/Access.antt =====
-- Who can write and read, and what a third agent can do.
use avix.Base.{
  ℕ, String, false, string_eq, nat_eq, [], none, some, ◌≡◌, ◌≢◌, arith, eq_iff, nat_beq_iff,
}
use avix.Base.Dict.{get, get-remove}
use avix.Errors.{ok, err}
use avix.Pipe.Config.{can_write, can_read, partner}
use avix.Pipe.Manager.{
  PipeRecord, write_denied, read_denied, close_as, sigpipe, PipeManager, Parsers, write_as, read_as,
}

write_as_refused :
    (parsers : Parsers) (id msg : String) (pid : ℕ) (pipes : PipeManager) (rec : PipeRecord)
    → get id pipes ≡ some rec
    → can_write rec.config pid ≡ false
    → write_as parsers id pid msg pipes ≡ some (err (write_denied id pid), pipes)
unfolding write_as
write_as_refused parsers id msg pid pipes rec found w = ground arith

read_as_refused :
    (id : String) (pid : ℕ) (pipes : PipeManager) (rec : PipeRecord)
    → get id pipes ≡ some rec
    → can_read rec.config pid ≡ false
    → read_as id pid pipes ≡ (err (read_denied id pid), pipes)
unfolding read_as
read_as_refused id pid pipes rec found r = ground arith

-- Of an agent that is neither end of a pipe, writes and reads are refused, and the pipes stay as they
-- are.
pub third_agent_refused :
    (parsers : Parsers) (id msg : String) (pid : ℕ) (pipes : PipeManager) (rec : PipeRecord)
    → get id pipes ≡ some rec
    → pid ≢ rec.config.source_pid
    → pid ≢ rec.config.target_pid
    → (write_as parsers id pid msg pipes ≡ some (err (write_denied id pid), pipes))
      × (read_as id pid pipes ≡ (err (read_denied id pid), pipes))
unfolding can_write can_read
third_agent_refused parsers id msg pid pipes rec found s t =
    let source = nat_beq_iff pid rec.config.source_pid in
    let target = nat_beq_iff pid rec.config.target_pid in
    (
      write_as_refused parsers id msg pid pipes rec found (ground (arith, source, target)),
      read_as_refused id pid pipes rec found (ground (arith, source, target)),
    )

-- A pipe can be closed by anyone: whoever calls, the pipe is gone, and SIGPIPE goes to the other end when
-- the caller is an end, and to nobody when it is not.
pub close_as_lem :
    (id : String) (pid : ℕ) (reason : String) (pipes : PipeManager) (rec : PipeRecord)
    → get id pipes ≡ some rec
    → let (answer, pipes', signals) = close_as id pid reason pipes in
      (answer ≡ ok tt)
      × (get id pipes' ≡ none)
      × (signals ≡ sigpipe (partner rec.config pid) id reason)
      × (pid ≢ rec.config.source_pid → pid ≢ rec.config.target_pid → signals ≡ [])
unfolding close_as partner
close_as_lem id pid reason pipes rec found =
    let source = nat_beq_iff pid rec.config.source_pid in
    let target = nat_beq_iff pid rec.config.target_pid in
    ground (arith, source, target, get-remove id id pipes, eq_iff id id)

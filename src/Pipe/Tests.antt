-- ===== src/Pipe/Tests.antt =====
-- Tests and witnesses of the pipes.
use avix.Base.{◌≤◌, ◌≡◌, refl, String, List, [], ◌∷◌, ◌++◌, none, arith, string_eq, nat_eq, length}
use avix.Pipe.Config.{PipeConfig, new_config}
use avix.Pipe.Channel.{Pipe, new_pipe, write, read, close}
use avix.Pipe.Channel.Order.{Use, writes, reads, closes, uses, uses_lem}
use avix.Pipe.Manager.{PipeRecord, PipeManager, Parsers}

abbrev config : PipeConfig
config = new_config 3 4

abbrev history : List Use
history =
    writes "a" ∷ writes "b" ∷ reads ∷ writes "c" ∷ writes "d" ∷ closes ∷ writes "e" ∷ reads ∷ []

abbrev small : Pipe
small = new_pipe "p-1" 3 2

small_run : (uses history small).accepted ≡ "a" ∷ "b" ∷ "c" ∷ []
unfolding uses write read close
small_run = refl

uses_lem_example :
    ((uses history small).delivered ++ (uses history small).left.queue
      ≡ (uses history small).accepted)
    × (length (uses history small).left.queue ≤ 2)
uses_lem_example = uses_lem history small (omega arith)

abbrev record_of : PipeConfig → String → PipeRecord
record_of c id = record { pipe = new_pipe id c.source_pid 8; config = c }

abbrev pipes : PipeManager
pipes =
    ("p-1", record_of (new_config 3 4) "p-1")
    ∷ ("p-2", record_of (new_config 5 3) "p-2")
    ∷ ("p-3", record_of (new_config 5 4) "p-3")
    ∷ []

abbrev parsers : Parsers
parsers = record { json_error = λ s. none; yaml_error = λ s. none }

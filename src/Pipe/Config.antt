-- ===== src/Pipe/Config.antt =====
-- crates/avix-core/src/pipe/config.rs.
pub mod Rights
use avix.Base.{ℕ, String, Bool, ◌||◌, if◌then◌else◌, ◌==◌, string_eq, nat_eq, Option, none, some}

pub data PipeDirection : Type 0 where
  out into bidirectional : PipeDirection

pub data BackpressurePolicy : Type 0 where
  block drop error : BackpressurePolicy

pub data PipeEncoding : Type 0 where
  text json yaml : PipeEncoding

unfoldable pub parse_direction : String → PipeDirection
parse_direction s = if s == "in" then into else if s == "bidirectional" then bidirectional else out

unfoldable pub direction_str : PipeDirection → String
direction_str into = "in"
direction_str out = "out"
direction_str bidirectional = "bidirectional"

unfoldable pub parse_backpressure : String → BackpressurePolicy
parse_backpressure s = if s == "drop" then drop else if s == "error" then error else block

unfoldable pub backpressure_str : BackpressurePolicy → String
backpressure_str block = "block"
backpressure_str drop = "drop"
backpressure_str error = "error"

unfoldable pub parse_encoding : String → PipeEncoding
parse_encoding s = if s == "json" then json else if s == "yaml" then yaml else text

unfoldable pub encoding_str : PipeEncoding → String
encoding_str text = "text"
encoding_str json = "json"
encoding_str yaml = "yaml"

pub record PipeConfig : Type 0 where
  pub source_pid : ℕ
  pub target_pid : ℕ
  pub direction : PipeDirection
  pub buffer_tokens : ℕ
  pub backpressure : BackpressurePolicy
  pub encoding : PipeEncoding

abbrev pub new_config : ℕ → ℕ → PipeConfig
new_config source_pid target_pid = record {
  source_pid = source_pid;
  target_pid = target_pid;
  direction = out;
  buffer_tokens = 8192;
  backpressure = block;
  encoding = text;
}

unfoldable pub can_write : PipeConfig → ℕ → Bool
can_write config pid = elim config.direction [
  | out ↦ pid == config.source_pid
  | into ↦ pid == config.target_pid
  | bidirectional ↦ pid == config.source_pid || pid == config.target_pid
]

unfoldable pub can_read : PipeConfig → ℕ → Bool
can_read config pid = elim config.direction [
  | out ↦ pid == config.target_pid
  | into ↦ pid == config.source_pid
  | bidirectional ↦ pid == config.source_pid || pid == config.target_pid
]

unfoldable pub partner : PipeConfig → ℕ → Option ℕ
partner config closer_pid =
    if closer_pid == config.source_pid
    then some config.target_pid
    else if closer_pid == config.target_pid
    then some config.source_pid
    else none

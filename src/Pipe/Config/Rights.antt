-- ===== src/Pipe/Config/Rights.antt =====
-- Who may use a pipe.
use avix.Base.{ℕ, true, ◌≡◌, ◌≢◌, ◌⊎◌, ◌↔◌, string_eq, nat_eq, nat_beq_iff, some, arith}
use avix.Pipe.Config.{bidirectional, PipeConfig, can_write, can_read, partner}

-- Between two different agents, whoever may write or read is one of the two, the other one is its
-- partner, and who may write may not read unless the pipe goes both ways.
pub can_write_lem :
    (config : PipeConfig) (pid : ℕ)
    → config.source_pid ≢ config.target_pid
    → (((can_write config pid ≡ true) ⊎ (can_read config pid ≡ true)) ↔ (
        (partner config pid ≡ some config.source_pid)
        ⊎ (partner config pid ≡ some config.target_pid)))
      × (can_write config pid ≡ true
          → can_read config pid ≡ true
          → config.direction ≡ bidirectional)
unfolding can_write can_read partner
can_write_lem config pid h =
    ground (arith, nat_beq_iff config.source_pid pid, nat_beq_iff config.target_pid pid)

-- ===== src/Types/Pid.antt =====
-- crates/avix-core/src/types/pid.rs. A `Pid` is the `u64` that it holds. A mask of the lowest k bits is
-- written `% 2 ^ k`, and `(ts << 22) | salt` with a salt below 2 ^ 22 is a sum.
use avix.Base.{
  ℕ, ◌+◌, ◌-◌, ◌*◌, ◌/◌, ◌%◌, ◌^◌, ◌<◌, ◌≤◌, ◌≡◌, String, Bool, if◌then◌else◌, ◌==◌, nat_eq,
  decimal, arith,
}

abbrev pub pid_epoch_ms : ℕ
pid_epoch_ms = 1_735_689_600_000

-- The clock in milliseconds and the random `u32` are arguments.
pub generate : ℕ → ℕ → ℕ
generate now_ms random =
    let ts = (now_ms - pid_epoch_ms) % 2 ^ 42 in
    let salt = random % 2 ^ 22 in ts * 2 ^ 22 % 2 ^ 64 + salt

abbrev pub kernel_pid : ℕ
kernel_pid = 0

unfoldable pub is_kernel : ℕ → Bool
is_kernel pid = pid == 0

unfoldable pub display_pid : ℕ → String
unfolding is_kernel
display_pid pid = if is_kernel pid then "kernel" else decimal pid

-- From the epoch on, for 2 ^ 42 milliseconds, a new pid fits 64 bits, and both its time and the lowest
-- 22 bits of its random part can be read back from it.
pub generate_fields :
    (now_ms random : ℕ)
    → pid_epoch_ms ≤ now_ms
    → now_ms < pid_epoch_ms + 2 ^ 42
    → (generate now_ms random < 2 ^ 64)
      × (pid_epoch_ms + generate now_ms random / 2 ^ 22 ≡ now_ms)
      × (generate now_ms random % 2 ^ 22 ≡ random % 2 ^ 22)
unfolding generate
generate_fields now_ms random h k = omega arith

-- ===== src/Router/Concurrency.antt =====
-- crates/avix-core/src/router/concurrency.rs. A limiter is the number of free permits of its semaphore
-- and its atomic counter, which wraps at 64 bits; a guard is known by its limiter.
pub mod Bounds
use avix.Base.{ℕ, ◌+◌, ◌-◌, ◌%◌, ◌^◌, if◌then◌else◌, List, [], Option, none, some, ltb, nat_eq}
use avix.Base.Dict.{Dict, get, insert}

pub record ConcurrencyLimiter : Type 0 where
  pub free : ℕ
  pub active : ℕ

unfoldable pub new_limiter : ℕ → ConcurrencyLimiter
new_limiter most = record { free = most; active = 0 }

-- `acquire` of the limiter waits where `try_acquire` gives none.
unfoldable pub try_acquire : ConcurrencyLimiter → Option ConcurrencyLimiter
try_acquire l =
    if ltb 0 l.free
    then some (record { free = l.free - 1; active = (l.active + 1) % 2 ^ 64 })
    else none

unfoldable pub drop_guard : ConcurrencyLimiter → ConcurrencyLimiter
drop_guard l = record { free = l.free + 1; active = (l.active + (2 ^ 64 - 1)) % 2 ^ 64 }

pub record CallerScopedLimiter : Type 0 where
  pub max_per_pid : ℕ
  pub limits : Dict ℕ ConcurrencyLimiter

abbrev pub limit_of : ℕ → CallerScopedLimiter → ConcurrencyLimiter
limit_of pid l = elim (get pid l.limits) [ none ↦ new_limiter l.max_per_pid | some e ↦ e ]

unfoldable pub acquire_for : ℕ → CallerScopedLimiter → Option CallerScopedLimiter
acquire_for pid l = elim (try_acquire (limit_of pid l)) [
  | none ↦ none
  | some e ↦ some (record l { limits = insert pid e l.limits })
]

unfoldable pub drop_guard_for : ℕ → CallerScopedLimiter → CallerScopedLimiter
drop_guard_for pid l = record l { limits = insert pid (drop_guard (limit_of pid l)) l.limits }

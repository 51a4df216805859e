-- ===== src/Router/Concurrency/Bounds.antt =====
-- The counts of the limiters against the guards that are alive.
use avix.Base.{
  ℕ, suc, ◌+◌, ◌≤◌, ◌<◌, ◌^◌, ◌≡◌, ◌↔◌, refl, subst, true, List, [], ◌∷◌, none, some, arith, inl,
  inr, Option-cases, nat_eq, if◌then◌else◌, ◌==◌, count, drop_one, count-drop_one, contains,
}
use avix.Base.Dict.{get, insert, get-insert}
use avix.Router.Concurrency.{
  ConcurrencyLimiter, new_limiter, try_acquire, drop_guard, CallerScopedLimiter, limit_of,
  acquire_for, drop_guard_for,
}

-- A limiter made for `most` calls, with so many of its guards alive.
pub data Held (most : ℕ) : ConcurrencyLimiter → ℕ → Type 0 where
  fresh : Held most (new_limiter most) 0
  taken :
      {l l' : ConcurrencyLimiter} {n : ℕ}
      → Held most l n
      → try_acquire l ≡ some l'
      → Held most l' (suc n)
  dropped : {l : ConcurrencyLimiter} {n : ℕ} → Held most l (suc n) → Held most (drop_guard l) n

-- n guards of the limiter are alive.
pub record IsExact (most n : ℕ) (l : ConcurrencyLimiter) : Type 0 where
  pub counted : l.active ≡ n
  pub rest : l.free + n ≡ most

module _ (most : ℕ) (fits : most < 2 ^ 64) where
  taken-IsExact :
      (n : ℕ) (l l' : ConcurrencyLimiter)
      → IsExact most n l
      → try_acquire l ≡ some l'
      → IsExact most (suc n) l'
  unfolding try_acquire
  taken-IsExact n l l' v e = record { counted = ground arith; rest = ground arith }

  dropped-IsExact :
      (n : ℕ) (l : ConcurrencyLimiter) → IsExact most (suc n) l → IsExact most n (drop_guard l)
  unfolding drop_guard
  dropped-IsExact n l v = record {
    counted = omega (arith, v.counted, v.rest);
    rest = omega (arith, v.rest);
  }

  waits_iff :
      (n : ℕ) (l : ConcurrencyLimiter) → IsExact most n l → (try_acquire l ≡ none) ↔ (n ≡ most)
  unfolding try_acquire
  waits_iff n l v = ground (arith, v.rest)

  Held-IsExact : {l : ConcurrencyLimiter} {n : ℕ} → Held most l n → IsExact most n l
  unfolding new_limiter
  Held-IsExact fresh = record { counted = refl; rest = omega arith }
  Held-IsExact (taken {l} {l'} {n} h e) = taken-IsExact n l l' (Held-IsExact h) e
  Held-IsExact (dropped {l} {n} h) = dropped-IsExact n l (Held-IsExact h)

-- Of a limiter made for fewer than 2 ^ 64 calls: while guards come and go, the limiter's count of active
-- calls is that of the guards alive, never more than it was made for, and a call has to wait, or is
-- refused, exactly when that many are alive.
pub try_acquire_waits_iff :
    {most n : ℕ} {l : ConcurrencyLimiter}
    → most < 2 ^ 64
    → Held most l n
    → (l.active ≡ n) × (n ≤ most) × ((try_acquire l ≡ none) ↔ (n ≡ most))
try_acquire_waits_iff {most} {n} {l} fits h =
    let v = Held-IsExact most fits h in
    (v.counted, omega (arith, v.rest), waits_iff most fits n l v)

-- A limiter of callers, with the pids whose guards are alive.
pub data HeldFor (most : ℕ) : CallerScopedLimiter → List ℕ → Type 0 where
  fresh : HeldFor most (record { max_per_pid = most; limits = [] }) []
  taken :
      {l l' : CallerScopedLimiter} {pids : List ℕ} (pid : ℕ)
      → HeldFor most l pids
      → acquire_for pid l ≡ some l'
      → HeldFor most l' (pid ∷ pids)
  dropped :
      {l : CallerScopedLimiter} {pids : List ℕ} (pid : ℕ)
      → HeldFor most l pids
      → contains pids pid ≡ true
      → HeldFor most (drop_guard_for pid l) (drop_one pid pids)

module _ (most : ℕ) (fits : most < 2 ^ 64) where
  record IsExactFor (pids : List ℕ) (l : CallerScopedLimiter) : Type 0 where
    made_for : l.max_per_pid ≡ most
    exact : (pid : ℕ) → IsExact most (count pid pids) (limit_of pid l)

  limit_of-insert :
      (pid other : ℕ) (e : ConcurrencyLimiter) (l : CallerScopedLimiter)
      → limit_of other (record l { limits = insert pid e l.limits })
        ≡ (if pid == other then e else limit_of other l)
  limit_of-insert pid other e l = ground (arith, get-insert pid other e l.limits)

  taken_for-IsExactFor :
      (pid : ℕ) (pids : List ℕ) (l l' : CallerScopedLimiter)
      → IsExactFor pids l
      → acquire_for pid l ≡ some l'
      → IsExactFor (pid ∷ pids) l'
  unfolding acquire_for
  taken_for-IsExactFor pid pids l l' v h = elim (Option-cases (try_acquire (limit_of pid l))) [
    | inl e ↦ absurd (ground arith)
    | inr (e, found) ↦
        let same : l' ≡ record l { limits = insert pid e l.limits } = ground arith in
        record {
          made_for = ground (arith, v.made_for);
          exact = λ other.
              let here =
                taken-IsExact most fits (count pid pids) (limit_of pid l) e (v.exact pid) found in
              rw same (record {
                counted =
                    ground
                      (arith, limit_of-insert pid other e l, here.counted, (v.exact other).counted);
                rest =
                    ground (arith, limit_of-insert pid other e l, here.rest, (v.exact other).rest);
              });
        }
  ]

  dropped_for-IsExactFor :
      (pid : ℕ) (pids : List ℕ) (l : CallerScopedLimiter)
      → IsExactFor pids l
      → contains pids pid ≡ true
      → IsExactFor (drop_one pid pids) (drop_guard_for pid l)
  unfolding drop_guard_for
  dropped_for-IsExactFor pid pids l v held = record {
    made_for = v.made_for;
    exact = λ other.
        let fewer = count-drop_one pid pid pids held in
        let here =
          dropped-IsExact most fits (count pid (drop_one pid pids)) (limit_of pid l)
            (subst (λ n. IsExact most n (limit_of pid l)) (ground (arith, fewer)) (v.exact pid)) in
        let now = limit_of-insert pid other (drop_guard (limit_of pid l)) l in
        let others = count-drop_one pid other pids held in
        record {
          counted = ground (arith, now, others, here.counted, (v.exact other).counted);
          rest = ground (arith, now, others, here.rest, (v.exact other).rest);
        };
  }

  HeldFor-IsExactFor :
      {l : CallerScopedLimiter} {pids : List ℕ} → HeldFor most l pids → IsExactFor pids l
  unfolding new_limiter get
  HeldFor-IsExactFor fresh = record {
    made_for = refl;
    exact = λ pid. record { counted = refl; rest = omega arith };
  }
  HeldFor-IsExactFor (taken {l} {l'} {pids} pid h e) =
      taken_for-IsExactFor pid pids l l' (HeldFor-IsExactFor h) e
  HeldFor-IsExactFor (dropped {l} {pids} pid h held) =
      dropped_for-IsExactFor pid pids l (HeldFor-IsExactFor h) held

-- Where each caller may have fewer than 2 ^ 64: while the guards of many callers come and go, a caller
-- has to wait exactly when as many of its own guards are alive as each caller may have; the other
-- callers' guards play no part.
pub acquire_for_waits_iff :
    {most : ℕ} {pids : List ℕ} {l : CallerScopedLimiter} (pid : ℕ)
    → most < 2 ^ 64
    → HeldFor most l pids
    → (acquire_for pid l ≡ none) ↔ (count pid pids ≡ most)
unfolding acquire_for
acquire_for_waits_iff {most} {pids} {l} pid fits h =
    let v = HeldFor-IsExactFor most fits h in
    ground (arith, waits_iff most fits (count pid pids) (limit_of pid l) (v.exact pid))

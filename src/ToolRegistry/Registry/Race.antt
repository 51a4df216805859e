-- ===== src/ToolRegistry/Registry/Race.antt =====
-- A call that begins while its tool is being removed.
use avix.Base.{
  ℕ, ◌<◌, ◌≡◌, ◌∙◌, String, ◌==◌, string_eq, nat_eq, List, [], ◌∷◌, some, arith, inl, inr,
  Bool-cases,
}
use avix.Base.Dict.{get, modify, get-modify}
use avix.Errors.{ok}
use avix.ToolRegistry.Registry.{
  ToolRecord, ToolRegistry, marked, mark_unavailable, permits, acquire, take_permit,
}
use avix.ToolRegistry.Registry.Balance.{acquire_eq_ok}

module _ {Value : Type 0} where
  acquire_of_record :
      (name : String) (reg : ToolRegistry Value) (r : ToolRecord Value)
      → get name reg.inner ≡ some r
      → 0 < permits r.semaphore reg
      → acquire name reg ≡ some (ok r.semaphore, take_permit r.semaphore reg)
  unfolding acquire
  acquire_of_record name reg r e free = rw (e, acquire) (ground arith)

  abbrev mark_one : String → ToolRegistry Value → ToolRegistry Value
  mark_one n reg = record reg { inner = modify n marked reg.inner }

  acquire-mark_one :
      (name : String) (s : ℕ) (n : String) (reg reg' : ToolRegistry Value)
      → acquire name reg ≡ some (ok s, reg')
      → acquire name (mark_one n reg) ≡ some (ok s, mark_one n reg')
  acquire-mark_one name s n reg reg' h =
      let (r, found, same, free, taken) = acquire_eq_ok name s reg reg' h in
      elim (Bool-cases (n == name)) [
        | inl hit ↦
            acquire_of_record name (mark_one n reg) (marked r)
              (ground (arith, get-modify n name marked reg.inner)) (ground arith)
            ∙ ground arith
        | inr miss ↦
            acquire_of_record name (mark_one n reg) r
              (ground (arith, get-modify n name marked reg.inner)) (ground arith)
            ∙ ground arith
      ]

  -- Where `acquire` gives a guard, it gives the same guard after any tools are marked as unavailable.
  pub acquire-mark_unavailable :
      (name : String) (s : ℕ) (names : List String) (reg reg' : ToolRegistry Value)
      → acquire name reg ≡ some (ok s, reg')
      → acquire name (mark_unavailable names reg) ≡ some (ok s, mark_unavailable names reg')
  unfolding mark_unavailable
  acquire-mark_unavailable name s [] reg reg' h = h
  acquire-mark_unavailable name s (n ∷ names) reg reg' h =
      acquire-mark_unavailable name s names (mark_one n reg) (mark_one n reg')
        (acquire-mark_one name s n reg reg' h)

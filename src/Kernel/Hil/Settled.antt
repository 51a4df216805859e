-- ===== src/Kernel/Hil/Settled.antt =====
-- What a resolution settles.
use avix.Base.{
  ℕ, ◌≡◌, ◌↔◌, refl, String, false, if◌then◌else◌, ◌==◌, string_eq, nat_eq, List, none, some, arith,
  inl, inr, Option-cases, eq_iff,
}
use avix.Base.Dict.{get, get-remove}
use avix.Errors.{Result, ok, Result-cases}
use avix.Kernel.Approval.{ApprovalTokenStore, consume}
use avix.Kernel.Hil.{HilRequest, HilManager, push_resolved, settle, resolve_hil, timeout_hil}
use avix.Kernel.Hil.Once.{resolve_hil_tokens}

consume_iff :
    (token : String) (store : ApprovalTokenStore)
    → ((consume token store).0 ≡ ok tt) ↔ (get token store ≡ some false)
unfolding consume
consume_iff token store = ground arith

module _ {Value : Type 0} (to_yaml : HilRequest Value → Result String (List ℕ)) where
  get-settle :
      (hil_id other decision by : String) (now : ℕ) (m : HilManager Value)
      → get other (settle to_yaml hil_id decision by now m).pending
        ≡ (if hil_id == other then none else get other m.pending)
  unfolding settle push_resolved
  get-settle hil_id other decision by now m = elim (Option-cases (get hil_id m.pending)) [
    | inl e ↦ rw (e, settle) (get-remove hil_id other m.pending)
    | inr (req, e) ↦ rw (e, settle) (get-remove hil_id other m.pending)
  ]

  timeout_hil-gone :
      (hil_id : String) (pid now : ℕ) (m : HilManager Value)
      → get hil_id m.pending ≡ none
      → timeout_hil to_yaml hil_id pid now m ≡ m
  unfolding timeout_hil
  timeout_hil-gone hil_id pid now m e = rw (e, timeout_hil) refl

  resolve_hil_eq_ok :
      (hil_id token decision by : String) (now : ℕ) (m : HilManager Value)
      → (resolve_hil to_yaml hil_id token decision by now m).0 ≡ ok tt
      → (resolve_hil to_yaml hil_id token decision by now m).1
        ≡ settle to_yaml hil_id decision by now (record m { tokens = (consume token m.tokens).1 })
  unfolding resolve_hil
  resolve_hil_eq_ok hil_id token decision by now m h =
      elim (Result-cases (consume token m.tokens).0) [
        | inl (u, e) ↦ rw (e, resolve_hil) refl
        | inr (x, e) ↦ absurd (ground arith)
      ]

  -- A resolution succeeds exactly when its token is known and not used, whichever request it names and
  -- whether that one is still waiting.
  pub resolve_hil_iff :
      (hil_id token decision by : String) (now : ℕ) (m : HilManager Value)
      → ((resolve_hil to_yaml hil_id token decision by now m).0 ≡ ok tt)
        ↔ (get token m.tokens ≡ some false)
  resolve_hil_iff hil_id token decision by now m =
      rw ((resolve_hil_tokens to_yaml hil_id token decision by now m).0)
        (consume_iff token m.tokens)

  -- After a resolution that succeeds the request no longer waits and every other one waits as before,
  -- and the request's timer changes nothing when it goes off.
  pub resolve_hil_settles :
      (hil_id token decision by : String) (now pid later : ℕ) (m : HilManager Value)
      → (resolve_hil to_yaml hil_id token decision by now m).0 ≡ ok tt
      → let m' = (resolve_hil to_yaml hil_id token decision by now m).1 in
        ((other : String)
          → get other m'.pending ≡ (if hil_id == other then none else get other m.pending))
        × (timeout_hil to_yaml hil_id pid later m' ≡ m')
  resolve_hil_settles hil_id token decision by now pid later m h =
      let taken = record m { tokens = (consume token m.tokens).1 } in
      let gone = get-settle hil_id hil_id decision by now taken in
      rw (resolve_hil_eq_ok hil_id token decision by now m h) (
        λ other. get-settle hil_id other decision by now taken,
        timeout_hil-gone hil_id pid later _ (ground (arith, gone, eq_iff hil_id hil_id)),
      )

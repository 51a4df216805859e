-- ===== src/Kernel/Hil/Once.antt =====
-- How often an approval token is good, and what a resolution depends on.
use avix.Base.{
  ℕ, suc, ◌≤◌, ◌≡◌, refl, String, Bool, true, false, ◌&&◌, if◌then◌else◌, ◌==◌, string_eq, nat_eq,
  List, [], ◌∷◌, some, arith, inl, inr, Bool-cases, eq_iff,
}
use avix.Base.Dict.{get, get-insert}
use avix.Errors.{AvixError, Result, ok, err, Result-cases}
use avix.Kernel.Approval.{ApprovalTokenStore, register_token, consume}
use avix.Kernel.Hil.{
  HilRequest, HilManager, HilCall, opens, resolves, times_out, file_of, open_hil, push_resolved,
  settle, resolve_hil, timeout_hil, hil_step,
}

abbrev pub succeeded : Result AvixError (Unit {0}) → Bool
succeeded (ok _) = true
succeeded (err _) = false

get-register_token :
    (token id : String) (store : ApprovalTokenStore)
    → get token store ≡ some true
    → get token (register_token id store) ≡ some true
unfolding register_token
get-register_token token id store h =
    ground (arith, get-insert id token false store, eq_iff id token)

get-consume :
    (token id : String) (store : ApprovalTokenStore)
    → get token store ≡ some true
    → get token (consume id store).1 ≡ some true
unfolding consume
get-consume token id store h = ground (arith, get-insert id token true store, eq_iff id token)

consume_used :
    (token : String) (store : ApprovalTokenStore)
    → get token store ≡ some true
    → succeeded (consume token store).0 ≡ false
unfolding consume
consume_used token store h = ground arith

consume_takes :
    (token : String) (store : ApprovalTokenStore)
    → succeeded (consume token store).0 ≡ true
    → get token (consume token store).1 ≡ some true
unfolding consume
consume_takes token store h = ground (arith, get-insert token token true store, eq_iff token token)

module _ {Value : Type 0} (to_yaml : HilRequest Value → Result String (List ℕ)) where
  settle_tokens :
      (hil_id decision by : String) (now : ℕ) (m : HilManager Value)
      → (settle to_yaml hil_id decision by now m).tokens ≡ m.tokens
  unfolding settle push_resolved
  settle_tokens hil_id decision by now m = ground arith

  timeout_hil_tokens :
      (hil_id : String) (pid now : ℕ) (m : HilManager Value)
      → (timeout_hil to_yaml hil_id pid now m).tokens ≡ m.tokens
  unfolding timeout_hil push_resolved
  timeout_hil_tokens hil_id pid now m = ground arith

  pub resolve_hil_tokens :
      (hil_id token decision by : String) (now : ℕ) (m : HilManager Value)
      → ((resolve_hil to_yaml hil_id token decision by now m).0 ≡ (consume token m.tokens).0)
        × ((resolve_hil to_yaml hil_id token decision by now m).1.tokens
            ≡ (consume token m.tokens).1)
  unfolding resolve_hil
  resolve_hil_tokens hil_id token decision by now m =
      elim (Result-cases (consume token m.tokens).0) [
        | inl (u, e) ↦ ground (
          arith,
          settle_tokens hil_id decision by now (record m { tokens = (consume token m.tokens).1 }),
        )
        | inr (x, e) ↦ ground arith
      ]

  open_hil-used :
      (token : String) (req : HilRequest Value) (now : ℕ) (m : HilManager Value)
      → get token m.tokens ≡ some true
      → get token (open_hil to_yaml req now m).1.tokens ≡ some true
  unfolding open_hil
  open_hil-used token req now m h = elim (Result-cases (file_of to_yaml req)) [
    | inl (file, e) ↦ rw (e, open_hil) (get-register_token token req.approval_token m.tokens h)
    | inr (x, e) ↦ rw (e, open_hil) h
  ]

  used_stays :
      (token : String) (now : ℕ) (call : HilCall Value) (m : HilManager Value)
      → get token m.tokens ≡ some true
      → get token (hil_step to_yaml (now, call) m).tokens ≡ some true
  unfolding hil_step
  used_stays token now (opens req) m h = open_hil-used token req now m h
  used_stays token now (resolves hil_id t decision by) m h =
      rw ((resolve_hil_tokens hil_id t decision by now m).1) (get-consume token t m.tokens h)
  used_stays token now (times_out hil_id pid) m h = rw (timeout_hil_tokens hil_id pid now m) h

  -- Is this a resolution with `token` that succeeds?
  abbrev pub passes : String → ℕ × HilCall Value → HilManager Value → Bool
  passes token (now, opens req) m = false
  passes token (now, resolves hil_id t decision by) m =
      t == token && succeeded (resolve_hil to_yaml hil_id t decision by now m).0
  passes token (now, times_out hil_id pid) m = false

  -- How many resolutions with `token` succeed in the course of the calls.
  unfoldable pub approvals : String → List (ℕ × HilCall Value) → HilManager Value → ℕ
  unfolding hil_step
  approvals token [] m = 0
  approvals token (call ∷ calls) m =
      let rest = approvals token calls (hil_step to_yaml call m) in
      if passes token call m then suc rest else rest

  passes_used :
      (token : String) (call : ℕ × HilCall Value) (m : HilManager Value)
      → get token m.tokens ≡ some true
      → passes token call m ≡ false
  passes_used token (now, opens req) m h = refl
  passes_used token (now, resolves hil_id t decision by) m h = ground (
    arith,
    (resolve_hil_tokens hil_id t decision by now m).0,
    consume_used token m.tokens h,
    eq_iff t token,
  )
  passes_used token (now, times_out hil_id pid) m h = refl

  passes_takes :
      (token : String) (call : ℕ × HilCall Value) (m : HilManager Value)
      → passes token call m ≡ true
      → get token (hil_step to_yaml call m).tokens ≡ some true
  unfolding hil_step
  passes_takes token (now, opens req) m h = absurd (ground arith)
  passes_takes token (now, resolves hil_id t decision by) m h =
      let (answer, tokens) = resolve_hil_tokens hil_id t decision by now m in
      ground (arith, answer, tokens, consume_takes token m.tokens, eq_iff t token)
  passes_takes token (now, times_out hil_id pid) m h = absurd (ground arith)

  approvals_used :
      (token : String) (calls : List (ℕ × HilCall Value)) (m : HilManager Value)
      → get token m.tokens ≡ some true
      → approvals token calls m ≡ 0
  unfolding approvals
  approvals_used token [] m h = refl
  approvals_used token ((now, call) ∷ calls) m h = ground (
    arith,
    passes_used token (now, call) m h,
    approvals_used token calls (hil_step to_yaml (now, call) m) (used_stays token now call m h),
  )

  -- Whatever requests are opened, resolved or time out, an approval token resolves at most once.
  pub approvals_at_most_one :
      (token : String) (calls : List (ℕ × HilCall Value)) (m : HilManager Value)
      → approvals token calls m ≤ 1
  unfolding approvals
  approvals_at_most_one token [] m = omega arith
  approvals_at_most_one token (call ∷ calls) m = elim (Bool-cases (passes token call m)) [
    | inl e ↦
        ground (
          arith,
          approvals_used token calls (hil_step to_yaml call m) (passes_takes token call m e),
        )
    | inr e ↦ ground (arith, approvals_at_most_one token calls (hil_step to_yaml call m))
  ]

-- ===== src/Kernel/Hil/Unheard.antt =====
-- crates/avix-core/src/kernel/hil_manager.rs and executor/hil: what of the manager's answers reaches an agent.
use avix.Base.{
  ℕ, String, ◌==◌, nat_eq, string_eq, List, [], ◌∷◌, ◌++◌, Option, none, Option-cases, Bool-cases,
  ◌≡◌, inl, inr, refl, arith,
}
use avix.Base.Dict.{get}
use avix.Base.Json.{Json}
use avix.Errors.{capability_denied, Result, err, Result-cases}
use avix.Signal.Kind.{Signal}
use avix.Types.Token.{CapabilityToken}
use avix.Kernel.Approval.{consume}
use avix.Kernel.Hil.{HilSignal, HilRequest, HilManager, settle, push_resolved, resolve_hil}
use avix.Kernel.Hil.Waiting.{
  is_answer, await_signal, member_at, resume_signal, signals_to, CapabilityUpgrader, request_tool,
}

await_signal-append :
    (hil_id : String) (signals : List (Signal Json)) (s : HilSignal)
    → await_signal hil_id signals ≡ none
    → await_signal hil_id (signals ++ resume_signal s ∷ []) ≡ none
unfolding await_signal member_at
await_signal-append hil_id [] s h = refl
await_signal-append hil_id (sig ∷ signals) s h = elim (Bool-cases (is_answer hil_id sig)) [
  | inl t ↦ absurd (ground (arith, t, h))
  | inr f ↦ ground (arith, f, h, await_signal-append hil_id signals s)
]

-- No signal of the manager names the request that it answers.
await_signal-signals_to :
    (hil_id : String) (pid : ℕ) (sent : List HilSignal)
    → await_signal hil_id (signals_to pid sent) ≡ none
unfolding await_signal
await_signal-signals_to hil_id pid [] = refl
await_signal-signals_to hil_id pid (s ∷ older) = elim (Bool-cases (s.target == pid)) [
  | inl t ↦
      rw (t, signals_to)
        (await_signal-append hil_id (signals_to pid older) s
          (await_signal-signals_to hil_id pid older))
  | inr f ↦ rw (f, signals_to) (await_signal-signals_to hil_id pid older)
]

module _ {Value : Type 0} (to_yaml : HilRequest Value → Result String (List ℕ)) where
  signals-settle :
      (hil_id decision by : String) (now : ℕ) (m : HilManager Value)
      → (settle to_yaml hil_id decision by now m).signals ≡ m.signals
  unfolding settle push_resolved
  signals-settle hil_id decision by now m = elim (Option-cases (get hil_id m.pending)) [
    | inl e ↦ rw (e, settle) refl
    | inr (req, e) ↦ rw (e, settle) refl
  ]

  signals-resolve_hil :
      (hil_id token decision by : String) (now : ℕ) (m : HilManager Value)
      → (resolve_hil to_yaml hil_id token decision by now m).1.signals ≡ m.signals
  unfolding resolve_hil
  signals-resolve_hil hil_id token decision by now m =
      elim (Result-cases (consume token m.tokens).0) [
        | inl (u, e) ↦
            rw (e, resolve_hil)
              (signals-settle hil_id decision by now
                (record m { tokens = (consume token m.tokens).1 }))
        | inr (x, e) ↦ rw (e, resolve_hil) refl
      ]

  -- A resolution sends no signal, and no signal that the manager has sent ends a wait for the request: an
  -- agent that asked for a tool and hears nothing but the manager gets the timeout and keeps its token,
  -- also when the request was approved.
  pub request_tool-resolve_hil :
      (from_value : Json → Option CapabilityToken) (hil_id token decision by : String) (now : ℕ)
      (m : HilManager Value) (u : CapabilityUpgrader)
      → ((resolve_hil to_yaml hil_id token decision by now m).1.signals ≡ m.signals)
        × (request_tool from_value hil_id
              (signals_to u.pid (resolve_hil to_yaml hil_id token decision by now m).1.signals)
              u
            ≡ (err (capability_denied "HIL timeout"), u))
  unfolding request_tool
  request_tool-resolve_hil from_value hil_id token decision by now m u =
      let sent = (resolve_hil to_yaml hil_id token decision by now m).1.signals in
      (
        signals-resolve_hil hil_id token decision by now m,
        rw (await_signal-signals_to hil_id u.pid sent, request_tool) refl,
      )

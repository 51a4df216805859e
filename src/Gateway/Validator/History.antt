-- ===== src/Gateway/Validator/History.antt =====
-- A connection over time: the commands that arrive, with the clock and the token store at that moment.
use avix.Base.{
  ℕ, ◌≡◌, String, Bool, false, List, [], ◌∷◌, Option, contains, string_eq, refl, subst, inl, inr,
}
use avix.Errors.{AtpError, Result, ok, err, Result-cases}
use avix.Gateway.Replay.{ReplayGuard}
use avix.Gateway.Token.{Codec, AtpTokenStore}
use avix.Gateway.Validator.{AtpCmd, ValidatedCmd, validate_cmd}
use avix.Gateway.Validator.Accepted.{validate_cmd_iff, validate_cmd_state}

pub record Arrival (Value : Type 0) : Type 0 where
  pub cmd : AtpCmd Value
  pub store : AtpTokenStore
  pub now : ℕ

-- Each id differs from the known ones and from those before it.
abbrev pub AreFresh : List String → List String → Type 0
AreFresh seen [] = Unit {0}
AreFresh seen (id ∷ ids) = (contains seen id ≡ false) × AreFresh (id ∷ seen) ids

module _ {Value : Type 0} (codec : Codec) (path_of : Value → Option String) (bound : String)
    (is_admin_port : Bool) where
  abbrev answer : ReplayGuard → Arrival Value → Result AtpError (ValidatedCmd Value) × ReplayGuard
  answer guard a = validate_cmd codec path_of a.store a.cmd guard bound is_admin_port a.now

  -- The ids of the accepted commands, in order.
  unfoldable pub accepted_ids : ReplayGuard → List (Arrival Value) → List String
  accepted_ids guard [] = []
  accepted_ids guard (a ∷ rest) =
      let later = accepted_ids (answer guard a).1 rest in
      elim (answer guard a).0 [ ok v ↦ a.cmd.id ∷ later | err e ↦ later ]

  accepted_ids_nil : (guard : ReplayGuard) → accepted_ids guard [] ≡ []
  unfolding accepted_ids
  accepted_ids_nil guard = refl

  accepted_ids_ok :
      (guard : ReplayGuard) (a : Arrival Value) (rest : List (Arrival Value))
      (v : ValidatedCmd Value)
      → (answer guard a).0 ≡ ok v
      → accepted_ids guard (a ∷ rest) ≡ a.cmd.id ∷ accepted_ids (answer guard a).1 rest
  unfolding accepted_ids
  accepted_ids_ok guard a rest v e = rw (e, accepted_ids)

  accepted_ids_err :
      (guard : ReplayGuard) (a : Arrival Value) (rest : List (Arrival Value)) (f : AtpError)
      → (answer guard a).0 ≡ err f
      → accepted_ids guard (a ∷ rest) ≡ accepted_ids (answer guard a).1 rest
  unfolding accepted_ids
  accepted_ids_err guard a rest f e = rw (e, accepted_ids)

  -- Whatever arrives on a connection, and however the token store changes meanwhile, no command id is
  -- accepted twice, nor one that was known before.
  pub accepted_ids-AreFresh :
      (guard : ReplayGuard) (arrivals : List (Arrival Value))
      → AreFresh guard.seen (accepted_ids guard arrivals)
  accepted_ids-AreFresh guard [] = rw (accepted_ids_nil guard) tt
  accepted_ids-AreFresh guard (a ∷ rest) =
      let later = accepted_ids-AreFresh (answer guard a).1 rest in
      elim (Result-cases (answer guard a).0) [
        | inl (v, e) ↦
            let (claims, allowed, fresh, same) =
              (validate_cmd_iff codec path_of a.store a.cmd bound is_admin_port a.now guard v).0
                e in
            let seen =
              (validate_cmd_state codec path_of a.store a.cmd bound is_admin_port a.now guard).1 v
                e in
            rw (accepted_ids_ok guard a rest v e)
              (fresh, subst (λ s. AreFresh s (accepted_ids (answer guard a).1 rest)) seen later)
        | inr (f, e) ↦
            let kept =
              (validate_cmd_state codec path_of a.store a.cmd bound is_admin_port a.now guard).0 f
                e in
            rw (accepted_ids_err guard a rest f e) (
              subst (λ (g : ReplayGuard). AreFresh g.seen (accepted_ids (answer guard a).1 rest))
                kept later)
      ]

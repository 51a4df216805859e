-- ===== src/Gateway/EventBus/Ring.antt =====
-- crates/avix-core/src/gateway/event_bus.rs: what the ring keeps for a client that comes back.
use avix.Base.{
  ℕ, ◌≤◌, ◌<◌, String, Bool, true, false, not, if◌then◌else◌, leb, ltb, List, [], ◌∷◌, ◌++◌, length,
  length-append, keep, Option, ◌≡◌, refl, sym, ap, ◌∙◌, arith, Bool-cases, inl, inr,
}
use avix.Types.Role.{Role}
use avix.Gateway.EventBus.{
  AtpEvent, BusEvent, AtpEventBus, is_chunk, ring_capacity, new_bus, push_ring, numbered, publish,
  replay_since,
}

module _ {Json : Type 0} where
  -- The last `n` elements.
  abbrev pub latest : ℕ → List (BusEvent Json) → List (BusEvent Json)
  latest n [] = []
  latest n (e ∷ es) = if leb (length (e ∷ es)) n then e ∷ es else latest n es

  latest_all : (n : ℕ) (es : List (BusEvent Json)) → length es ≤ n → latest n es ≡ es
  latest_all n [] h = refl
  latest_all n (e ∷ es) h = ground arith

  latest_more :
      (n : ℕ) (x : BusEvent Json) (es : List (BusEvent Json))
      → n < length (x ∷ es)
      → latest n (x ∷ es) ≡ latest n es
  latest_more n x es h = let t : leb (length (x ∷ es)) n ≡ false = ground arith in rw t refl

  -- A ring that is exactly full drops its first element.
  push_ring_full :
      (n : ℕ) (e x : BusEvent Json) (es : List (BusEvent Json))
      → length (x ∷ es) ≡ n
      → push_ring n e (x ∷ es) ≡ latest n ((x ∷ es) ++ e ∷ [])
  unfolding push_ring
  push_ring_full n e x es h =
      let t : leb n (length (x ∷ es)) ≡ true = ground arith in
      let size = length-append es (e ∷ []) in
      rw t (
        sym (
          latest_more n x (es ++ e ∷ []) (omega (arith, size))
          ∙ latest_all n (es ++ e ∷ []) (omega (arith, size))))

  push_ring_free :
      (n : ℕ) (e : BusEvent Json) (es : List (BusEvent Json))
      → length es < n
      → push_ring n e es ≡ latest n (es ++ e ∷ [])
  unfolding push_ring
  push_ring_free n e es h =
      let t : leb n (length es) ≡ false = ground arith in
      rw t (sym (latest_all n (es ++ e ∷ []) (omega (arith, length-append es (e ∷ [])))))

  latest_long :
      (n : ℕ) (e x : BusEvent Json) (es : List (BusEvent Json))
      → n < length (x ∷ es)
      → push_ring n e (latest n es) ≡ latest n (es ++ e ∷ [])
      → push_ring n e (latest n (x ∷ es)) ≡ latest n ((x ∷ es) ++ e ∷ [])
  latest_long n e x es h k =
      ap (push_ring n e) (latest_more n x es h)
      ∙ k
      ∙ sym (latest_more n x (es ++ e ∷ []) (omega (arith, length-append es (e ∷ []))))

  push_ring-latest :
      (n : ℕ) (e : BusEvent Json) (es : List (BusEvent Json))
      → 0 < n
      → push_ring n e (latest n es) ≡ latest n (es ++ e ∷ [])
  push_ring-latest n e [] h = push_ring_free n e [] h
  push_ring-latest n e (x ∷ es) h = elim (Bool-cases (leb (length (x ∷ es)) n)) [
    | inr f ↦ latest_long n e x es (grind arith) (push_ring-latest n e es h)
    | inl t ↦
        rw (latest_all n (x ∷ es) (grind arith)) (elim (Bool-cases (leb n (length (x ∷ es)))) [
          | inl full ↦ push_ring_full n e x es (grind arith)
          | inr free ↦ push_ring_free n e (x ∷ es) (grind arith)
        ])
  ]

  -- What a client can want again: every event but the chunks of an answer.
  abbrev pub is_kept : BusEvent Json → Bool
  is_kept e = not (is_chunk e.event.event)

  keep-append :
      (p : BusEvent Json → Bool) (xs : List (BusEvent Json)) (e : BusEvent Json)
      → keep p (xs ++ e ∷ []) ≡ (if p e then keep p xs ++ e ∷ [] else keep p xs)
  keep-append p [] e = ground arith
  keep-append p (x ∷ xs) e = ground (arith, keep-append p xs e)

pub data Published {Json : Type 0} : AtpEventBus Json → Type 0 where
  fresh_bus : Published new_bus
  one_more :
      {bus : AtpEventBus Json} (event : AtpEvent Json) (owner : Option String) (role : Role)
      → Published bus
      → Published (publish true event owner role bus)

module _ {Json : Type 0} where
  published_one :
      (bus : AtpEventBus Json) (event : AtpEvent Json) (owner : Option String) (role : Role)
      → bus.ring ≡ latest ring_capacity (keep is_kept bus.sent)
      → (publish true event owner role bus).ring
        ≡ latest ring_capacity (keep is_kept (publish true event owner role bus).sent)
  unfolding publish
  published_one bus event owner role ih =
      let ev = numbered event owner role bus in
      let old = keep is_kept bus.sent in
      let last = keep-append is_kept bus.sent ev in
      elim (Bool-cases (is_chunk event.event)) [
        | inl t ↦ rw (last, t) ih
        | inr f ↦
            rw (last, f)
              (ap (push_ring ring_capacity ev) ih
                ∙ push_ring-latest ring_capacity ev old (omega arith))
      ]

  ring_of_all :
      {bus : AtpEventBus Json}
      → Published bus
      → bus.ring ≡ latest ring_capacity (keep is_kept bus.sent)
  ring_of_all fresh_bus = refl
  ring_of_all (one_more {bus} event owner role h) =
      published_one bus event owner role (ring_of_all h)

  -- A client that asks for what came after an event gets, in order, every event with a greater number among
  -- the last 512 published that are no chunk of an answer, when the lock of the ring was free at
  -- each publication.
  pub replay_since_lem :
      {bus : AtpEventBus Json} (since_seq : ℕ)
      → Published bus
      → replay_since since_seq bus
        ≡ keep
            (λ (e : BusEvent Json). ltb since_seq e.seq)
            (latest ring_capacity (keep is_kept bus.sent))
  unfolding replay_since
  replay_since_lem since_seq h =
      ap (keep (λ (e : BusEvent Json). ltb since_seq e.seq)) (ring_of_all h)

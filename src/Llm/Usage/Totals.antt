-- ===== src/Llm/Usage/Totals.antt =====
-- crates/avix-core/src/llm_svc/usage.rs: what the counters add up to.
use avix.Base.{
  ℕ, ◌+◌, ◌%◌, ◌^◌, String, string_eq, ◌==◌, if◌then◌else◌, List, [], ◌∷◌, ◌≡◌, refl, ap, ◌∙◌,
  eq_of_beq, arith, Bool-cases, inl, inr,
}
use avix.Base.Dict.{get, get-insert}
use avix.Llm.Usage.{
  Seconds, TextUsage, ProviderUsage, UsageTracker, UsageEvent, text_used, image_used, speech_used,
  transcription_used, embedding_used, text_failed, image_failed, speech_failed,
  transcription_failed, embedding_failed, plus, or_default, change_usage, count_event, record_usage,
}

abbrev pub no_text : TextUsage
no_text = record { input_tokens = 0; output_tokens = 0; requests = 0; errors = 0 }

abbrev pub add_text : TextUsage → TextUsage → TextUsage
add_text a b = record {
  input_tokens = a.input_tokens + b.input_tokens;
  output_tokens = a.output_tokens + b.output_tokens;
  requests = a.requests + b.requests;
  errors = a.errors + b.errors;
}

abbrev usage : ℕ → ℕ → ℕ → ℕ → TextUsage
usage input output requests errors = record {
  input_tokens = input;
  output_tokens = output;
  requests = requests;
  errors = errors;
}

abbrev pub wrap : TextUsage → TextUsage
wrap t = record {
  input_tokens = t.input_tokens % 2 ^ 64;
  output_tokens = t.output_tokens % 2 ^ 64;
  requests = t.requests % 2 ^ 64;
  errors = t.errors % 2 ^ 64;
}

usage_eq :
    {a b c d a' b' c' d' : ℕ}
    → a ≡ a'
    → b ≡ b'
    → c ≡ c'
    → d ≡ d'
    → usage a b c d ≡ usage a' b' c' d'
usage_eq p q r s = cc

plus-wrap : (a b : ℕ) → plus (a % 2 ^ 64) b ≡ (a + b) % 2 ^ 64
plus-wrap a b = omega arith

wrap_nothing : (t : TextUsage) → wrap t ≡ wrap (add_text t no_text)
wrap_nothing t = usage_eq (omega arith) (omega arith) (omega arith) (omega arith)

module _ (f : Seconds) where
  -- Events, each with its provider, oldest last
  abbrev pub usage_after : List (String × UsageEvent f) → UsageTracker f
  usage_after [] = []
  usage_after ((provider, event) ∷ before) = record_usage f provider event (usage_after before)

  -- The text usage of one event, and of all events of a provider, without wrapping
  abbrev pub text_of_event : UsageEvent f → TextUsage
  text_of_event (text_used input output) = record {
    input_tokens = input;
    output_tokens = output;
    requests = 1;
    errors = 0;
  }
  text_of_event text_failed = record no_text { errors = 1 }
  text_of_event _ = no_text

  abbrev pub text_total : String → List (String × UsageEvent f) → TextUsage
  text_total provider [] = no_text
  text_total provider ((p, event) ∷ before) =
      let rest = text_total provider before in
      if p == provider then add_text rest (text_of_event event) else rest

  get-record_usage :
      (p provider : String) (event : UsageEvent f) (map : UsageTracker f)
      → or_default f (get provider (record_usage f p event map)) ≡ (
          if p == provider
          then count_event f event (or_default f (get provider map))
          else or_default f (get provider map))
  unfolding record_usage change_usage
  get-record_usage p provider event map = elim (Bool-cases (p == provider)) [
    | inl t ↦
        rw (get-insert p provider (count_event f event (or_default f (get p map))) map, t)
          (ap (λ k. count_event f event (or_default f (get k map))) (eq_of_beq p provider t))
    | inr n ↦
        rw (get-insert p provider (count_event f event (or_default f (get p map))) map, n) refl
  ]

  text-count_event :
      (event : UsageEvent f) (u : ProviderUsage f) (t : TextUsage)
      → u.text ≡ wrap t
      → (count_event f event u).text ≡ wrap (add_text t (text_of_event event))
  unfolding count_event
  text-count_event (text_used input output) u t h =
      ap
        (λ (x : TextUsage).
          usage (plus x.input_tokens input) (plus x.output_tokens output) (plus x.requests 1)
            x.errors)
        h
      ∙ usage_eq (plus-wrap t.input_tokens input) (plus-wrap t.output_tokens output)
          (plus-wrap t.requests 1) (omega arith)
  text-count_event text_failed u t h =
      ap (λ (x : TextUsage). usage x.input_tokens x.output_tokens x.requests (plus x.errors 1)) h
      ∙ usage_eq (omega arith) (omega arith) (omega arith) (plus-wrap t.errors 1)
  text-count_event image_used u t h = h ∙ wrap_nothing t
  text-count_event image_failed u t h = h ∙ wrap_nothing t
  text-count_event (speech_used chars) u t h = h ∙ wrap_nothing t
  text-count_event speech_failed u t h = h ∙ wrap_nothing t
  text-count_event (transcription_used s) u t h = h ∙ wrap_nothing t
  text-count_event transcription_failed u t h = h ∙ wrap_nothing t
  text-count_event (embedding_used n) u t h = h ∙ wrap_nothing t
  text-count_event embedding_failed u t h = h ∙ wrap_nothing t

  -- After any events, the text usage that a provider is charged with is the sum of what its own events used,
  -- each counter modulo `2 ^ 64`.
  pub text_total-usage_after :
      (provider : String) (events : List (String × UsageEvent f))
      → (or_default f (get provider (usage_after events))).text ≡ wrap (text_total provider events)
  unfolding get
  text_total-usage_after provider [] = refl
  text_total-usage_after provider ((p, event) ∷ before) =
      let ih = text_total-usage_after provider before in
      elim (Bool-cases (p == provider)) [
        | inl t ↦
            ap (λ u. u.text) (get-record_usage p provider event (usage_after before))
            ∙ rw (t) (
                text-count_event event (or_default f (get provider (usage_after before)))
                  (text_total provider before) ih)
        | inr n ↦
            ap (λ u. u.text) (get-record_usage p provider event (usage_after before)) ∙ rw (n) ih
      ]

-- ===== src/Signal/PipePayload.antt =====
-- crates/avix-core/src/signal/pipe_payload.rs: what a SIGPIPE carries. `decode` is the decoder of base64, of
-- which only the message of a failure matters; base64 is the only encoding.
use avix.Base.{
  ℕ, suc, String, Bool, true, false, not, if◌then◌else◌, ◌+++◌, decimal, starts_with, List, [], ◌∷◌,
  Option, none, some, All, ◌≡◌, ◌↔◌, refl, sym, ◌∙◌, arith, Bool-cases, Option-cases, inl, inr,
}
use avix.Errors.{Result, ok, err, ◌>>=◌, bind_eq_ok}

pub data InlineEncoding : Type 0 where
  base64 : InlineEncoding

pub data PipeAttachment : Type 0 where
  inline :
      (content_type : String) (encoding : InlineEncoding) (data_ : String) (label : Option String)
      → PipeAttachment
  vfs_ref : (path content_type : String) (label : Option String) → PipeAttachment

pub record SigPipePayload : Type 0 where
  pub text : Option String
  pub attachments : Option (List PipeAttachment)

abbrev pub is_bare : SigPipePayload → Bool
is_bare p = elim p.text [
  | some _ ↦ false
  | none ↦ elim p.attachments [
    | none ↦ true
    | some items ↦ elim items [ [] ↦ true | ◌∷◌ _ _ ↦ false ]
  ]
]

module _ (decode : String → Option String) where
  -- `i` is the position of the attachment.
  unfoldable pub check_attachment : ℕ → PipeAttachment → Result String (Unit {0})
  check_attachment i (inline _ base64 data_ _) = elim (decode data_) [
    | none ↦ ok tt
    | some e ↦ err ("attachment[" +++ decimal i +++ "] invalid base64: " +++ e)
  ]
  check_attachment i (vfs_ref path _ _) =
      if not (starts_with path "/")
      then err (
          "attachment[" +++ decimal i +++ "] vfs_ref path must be absolute, got '" +++ path +++ "'")
      else if starts_with path "/secrets/"
      then err ("attachment[" +++ decimal i +++ "] vfs_ref path '/secrets/' is forbidden")
      else ok tt

  unfoldable pub check_attachments : ℕ → List PipeAttachment → Result String (Unit {0})
  unfolding check_attachment
  check_attachments i [] = ok tt
  check_attachments i (a ∷ rest) = check_attachment i a >>= λ _. check_attachments (suc i) rest

  abbrev pub attachments_of : SigPipePayload → List PipeAttachment
  attachments_of p = elim p.attachments [ none ↦ [] | some items ↦ items ]

  unfoldable pub validate_pipe_payload : SigPipePayload → Result String (Unit {0})
  unfolding check_attachments
  validate_pipe_payload p =
      if is_bare p
      then err "SIGPIPE payload must have 'text' or at least one attachment"
      else check_attachments 0 (attachments_of p)

  -- An attachment that may be forwarded
  abbrev pub IsSound : PipeAttachment → Type 0
  IsSound (inline _ _ data_ _) = decode data_ ≡ none
  IsSound (vfs_ref path _ _) =
      (starts_with path "/" ≡ true) × (starts_with path "/secrets/" ≡ false)

  check_attachment_iff : (i : ℕ) (a : PipeAttachment) → (check_attachment i a ≡ ok tt) ↔ IsSound a
  unfolding check_attachment
  check_attachment_iff i (inline _ base64 data_ _) = elim (Option-cases (decode data_)) [
    | inl e ↦ ground (arith, e)
    | inr (x, e) ↦ ground (arith, e)
  ]
  check_attachment_iff i (vfs_ref path _ _) = elim (Bool-cases (starts_with path "/")) [
    | inl t ↦ elim (Bool-cases (starts_with path "/secrets/")) [
      | inl u ↦ ground (arith, t, u)
      | inr u ↦ ground (arith, t, u)
    ]
    | inr f ↦ ground (arith, f)
  ]

  check_attachments_iff :
      (i : ℕ) (items : List PipeAttachment)
      → (check_attachments i items ≡ ok tt) ↔ All IsSound items
  unfolding check_attachments
  check_attachments_iff i [] = (λ _. tt, λ _. refl)
  check_attachments_iff i (a ∷ rest) =
      let here = check_attachment_iff i a in
      let later = check_attachments_iff (suc i) rest in
      (
        λ h.
            let (_, first, others) = bind_eq_ok (check_attachment i a) _ h in
            (here.0 first, later.0 others),
        λ h. rw (here.1 h.0, check_attachments) (later.1 h.1),
      )

  -- A payload is let through exactly when it has a text or an attachment and every attachment is sound: its
  -- data decodes, or its path is absolute and not under /secrets/.
  pub validate_pipe_payload_iff :
      (p : SigPipePayload)
      → (validate_pipe_payload p ≡ ok tt) ↔ ((is_bare p ≡ false) × All IsSound (attachments_of p))
  unfolding validate_pipe_payload
  validate_pipe_payload_iff p =
      let checked = check_attachments_iff 0 (attachments_of p) in
      elim (Bool-cases (is_bare p)) [
        | inl t ↦ ground (arith, t)
        | inr f ↦
            let same : validate_pipe_payload p ≡ check_attachments 0 (attachments_of p) =
              rw (f, validate_pipe_payload) refl in
            (λ h. (f, checked.0 (sym same ∙ h)), λ h. same ∙ checked.1 h.1)
      ]

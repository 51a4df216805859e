-- ===== src/Invocation/Store/Updates.antt =====
-- crates/avix-core/src/invocation/store.rs: what is read after a write.
use avix.Base.{
  ℕ, String, false, List, [], ◌∷◌, Option, none, some, ◌≡◌, inl, inr, refl, ap, ◌∙◌, sym, subst,
  arith,
}
use avix.Base.Redb.{Redb, Json, IsFaithful, Saved, put_record, get_record-put_record}
use avix.Errors.{AvixError, Result, ok, map_err, io, display, map_err_eq_ok, Result-cases}
use avix.Invocation.Record.{InvocationStatus, InvocationRecord, ConversationEntry}
use avix.Invocation.Store.{
  Files, get_invocation, changed, change_invocation, finalize, conversation_path, line_texts, wrote,
  write_conversation_structured, parse_lines, read_conversation,
}

module _ (db : Redb) (json : Json InvocationRecord) where
  get-change_invocation :
      (id : String) (change : InvocationRecord → InvocationRecord) (d : db.Database)
      (r : InvocationRecord)
      → IsFaithful db json
      → get_invocation db json id d ≡ ok (some r)
      → (change_invocation db json id change d).0 ≡ ok tt
      → get_invocation db json id (change_invocation db json id change d).1 ≡ ok (some (change r))
  unfolding change_invocation
  get-change_invocation id change d r faithful found h =
      let same : change_invocation db json id change d ≡ put_record db json id (change r) d =
        rw (found, change_invocation, changed) refl in
      rw same (
        get_record-put_record db json id (change r) d faithful
          (ap (λ (p : Saved db json). p.0) (sym same) ∙ h))

  -- Once an invocation that is stored has been finalized, what is stored under its identifier is its record
  -- with the status, the end, the counters and the reason that were given and all else as it was, when the
  -- database keeps what is written.
  pub get-finalize :
      (id : String) (status : InvocationStatus) (ended_at tokens calls : ℕ) (reason : Option String)
      (d : db.Database) (r : InvocationRecord)
      → IsFaithful db json
      → get_invocation db json id d ≡ ok (some r)
      → (finalize db json id status ended_at tokens calls reason d).0 ≡ ok tt
      → get_invocation db json id (finalize db json id status ended_at tokens calls reason d).1
        ≡ ok (
            some (record r {
              status = status;
              ended_at = some ended_at;
              tokens_consumed = tokens;
              tool_calls_total = calls;
              exit_reason = reason;
            }))
  unfolding finalize
  get-finalize id status ended_at tokens calls reason d r faithful found h =
      get-change_invocation id _ d r faithful found h

  -- To finalize an invocation that is not stored does nothing and succeeds.
  pub finalize_missing :
      (id : String) (status : InvocationStatus) (ended_at tokens calls : ℕ) (reason : Option String)
      (d : db.Database)
      → get_invocation db json id d ≡ ok none
      → finalize db json id status ended_at tokens calls reason d ≡ (ok tt, d)
  unfolding finalize
  finalize_missing id status ended_at tokens calls reason d missing =
      rw (missing, change_invocation, changed) refl

module _ {JsonValue : Type 0} (files : Files) (lines : Json (ConversationEntry JsonValue)) where
  -- What the disk and serde_json do: written lines are read, and a line of JSON is not blank.
  pub record IsKept : Type 0 where
    pub read_written :
        (path : String) (texts : List String) (disk : files.Disk)
        → (files.write_lines path texts disk).0 ≡ ok tt
        → (files.read_lines path (files.write_lines path texts disk).1 ≡ ok texts)
          × (files.utf8_error (files.write_lines path texts disk).1 path ≡ none)
    pub read_back :
        (e : ConversationEntry JsonValue) (text : String)
        → lines.to_json e ≡ ok text
        → (lines.from_json text ≡ ok e) × (files.blank text ≡ false)

  parse_lines-line_texts :
      (es : List (ConversationEntry JsonValue)) (texts : List String)
      → IsKept
      → line_texts files lines es ≡ ok texts
      → parse_lines files lines texts ≡ es
  parse_lines-line_texts [] texts kept h =
      subst (λ ts. parse_lines files lines ts ≡ []) {x = []} {y = texts} (ground arith) refl
  parse_lines-line_texts (e ∷ es) texts kept h = elim (Result-cases (lines.to_json e)) [
    | inr (x, l) ↦ absurd (ground (arith, l, h))
    | inl (text, l) ↦ elim (Result-cases (line_texts files lines es)) [
      | inr (x, m) ↦ absurd (ground (arith, l, m, h))
      | inl (rest, m) ↦
          let (parses, full) = kept.read_back e text l in
          subst (λ ts. parse_lines files lines ts ≡ e ∷ es) {x = text ∷ rest} {y = texts}
            (ground (arith, l, m, h))
            (rw (parse_lines, full, parses)
              (ap (λ r. e ∷ r) (parse_lines-line_texts es rest kept m)))
    ]
  ]

  -- A conversation that has been written is read back entry by entry, when the disk keeps the lines and the
  -- JSON of an entry is a line that is not blank and parses to the entry.
  pub read_conversation-write :
      (pid : ℕ) (session_id username : String) (es : List (ConversationEntry JsonValue))
      (disk : files.Disk)
      → IsKept
      → (write_conversation_structured files lines pid session_id username es (some disk)).0 ≡ ok tt
      → read_conversation files lines session_id pid username
          (write_conversation_structured files lines pid session_id username es (some disk)).1
        ≡ ok es
  unfolding write_conversation_structured read_conversation
  read_conversation-write pid session_id username es disk kept h =
      let path = conversation_path files lines username session_id pid in
      elim (Result-cases (line_texts files lines es)) [
        | inr (x, m) ↦ absurd (ground (arith, m, h))
        | inl (texts, m) ↦
            let same : write_conversation_structured files lines pid session_id username es
                  (some disk)
                ≡ wrote files lines (files.write_lines path texts disk) =
              rw (m, write_conversation_structured) refl in
            let k : map_err (λ e. io (display e)) (files.write_lines path texts disk).0 ≡ ok tt =
              ap (λ (p : Result AvixError (Unit {0}) × Option files.Disk). p.0) (sym same) ∙ h in
            let good =
              map_err_eq_ok (λ e. io (display e)) (files.write_lines path texts disk).0 k in
            let (reads, utf8) = kept.read_written path texts disk good in
            rw (m, write_conversation_structured, read_conversation, reads, utf8)
              (ap ok (parse_lines-line_texts es texts kept m))
      ]

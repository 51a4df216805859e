-- ===== src/Invocation/Tests.antt =====
-- Tests and witnesses of the invocations. The database is a dictionary of texts; each line of a conversation
-- is the name of an entry.
use native.Mathlib.Decide.{ℕ_discrete}
use avix.Base.{
  ℕ, String, false, ◌≡◌, refl, subst, string_eq, ◌==◌, List, [], ◌∷◌, none, some, arith,
}
use avix.Base.Dict.{Dict, get, insert, get-insert_self}
use avix.Base.Redb.{Json, get_record, put_record}
use avix.Base.Redb.Samples.{texts, string_discrete, name_by, names, names-IsFaithful}
use avix.Errors.{AvixError, not_found, Result, ok, err}
use avix.Invocation.Record.{
  InvocationRecord, InvocationStatus, new_invocation, ConversationEntry, ConversationRole,
  from_role_content,
}
use avix.Invocation.Store.{
  Files, get_invocation, change_invocation, finalize, write_conversation_structured,
}
use avix.Invocation.Store.Updates.{IsKept}

unfoldable record_discrete : Discrete InvocationRecord
record_discrete = hlevel (ℕ_discrete, string_discrete)

unfoldable entry_discrete : Discrete (ConversationEntry ℕ)
entry_discrete = hlevel (ℕ_discrete, string_discrete)

abbrev begun : InvocationRecord
begun = new_invocation "i-1" "scout" "ann" 7 "look around" "s-1" 100

abbrev ended : InvocationRecord
ended = record begun {
  status = InvocationStatus.completed;
  ended_at = some 160;
  tokens_consumed = 900;
  tool_calls_total = 4;
  exit_reason = some "done";
}

abbrev records : Json InvocationRecord
records = names record_discrete begun ended

abbrev database : Dict String String
database = ("i-1", "first") ∷ []

is_stored : get_invocation texts records "i-1" database ≡ ok (some begun)
unfolding get_record get
is_stored = refl

is_finalized :
    (finalize texts records "i-1" InvocationStatus.completed 160 900 4 (some "done") database).0
    ≡ ok tt
unfolding finalize change_invocation get_record put_record get insert record_discrete
    string_discrete new_invocation ℕ_discrete
is_finalized = refl

-- A disk of files of lines. No name of an entry is blank.
abbrev disk_read : String → Dict String (List String) → Result AvixError (List String)
disk_read path disk = elim (get path disk) [ none ↦ err (not_found path) | some ls ↦ ok ls ]

abbrev disks : Files
disks = record {
  Disk = Dict String (List String);
  write_lines = λ path ls disk. (ok tt, insert path ls disk);
  read_lines = disk_read;
  utf8_error = λ disk path. none;
  blank = λ line. line == "";
}

abbrev asked : ConversationEntry ℕ
asked = from_role_content ConversationRole.user "what is here?"

abbrev answered : ConversationEntry ℕ
answered = from_role_content ConversationRole.assistant "two files"

abbrev entries : Json (ConversationEntry ℕ)
entries = names entry_discrete asked answered

entry-name_by :
    (e : ConversationEntry ℕ) (text : String) (p : Dec (e ≡ asked)) (q : Dec (e ≡ answered))
    → name_by entry_discrete asked answered e p q ≡ ok text
    → (text == "") ≡ false
entry-name_by e text (yes _) _ h =
    subst (λ t. (t == "") ≡ false) {x = "first"} {y = text} (ground (arith, h)) refl
entry-name_by e text (no _) (yes _) h =
    subst (λ t. (t == "") ≡ false) {x = "second"} {y = text} (ground (arith, h)) refl
entry-name_by e text (no _) (no _) h = absurd (ground (arith, h))

disks-IsKept : IsKept disks entries
disks-IsKept = record {
  read_written = λ path ls disk _. (rw (disk_read, get-insert_self path ls disk) refl, refl);
  read_back = λ e text h. (
    (names-IsFaithful entry_discrete asked answered).read_back e text h,
    entry-name_by e text (entry_discrete e asked) (entry_discrete e answered) h,
  );
}

is_written :
    (write_conversation_structured disks entries 7 "s-1" "ann" (asked ∷ answered ∷ []) (some [])).0
    ≡ ok tt
unfolding write_conversation_structured entry_discrete string_discrete
is_written = refl

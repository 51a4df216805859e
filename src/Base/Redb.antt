-- ===== src/Base/Redb.antt =====
-- The crates redb and serde_json as the stores of records use them: tables of texts in a database, and the
-- texts of records. An operation that fails says why; a failed write leaves the database as it was.
pub mod Samples
use Prim.Native.String.{String}
use mathlib.Core.Path.{◌≡◌, refl, ap, ◌∙◌, sym}
use mathlib.Core.Option.{Option, none, some}
use mathlib.Core.List.{List, [], ◌∷◌}
use mathlib.Core.Logic.{inl, inr}
use native.Mathlib.Omega.{arith}
use avix.Errors.{AvixError, config_parse, Result, ok, err, map_err, ◌>>=◌, Result-cases}

pub record Redb : Type 1 where
  pub Database : Type 0
  pub insert : String → String → Database → Result String Database
  pub remove : String → Database → Result String Database
  pub get : String → Database → Result String (Option String)
  pub iter : Database → Result String (List String)

pub record Json (A : Type 0) : Type 0 where
  pub to_json : A → Result String String
  pub from_json : String → Result String A

module _ (db : Redb) {A : Type 0} (json : Json A) where
  abbrev pub Saved : Type 0
  Saved = Result AvixError (Unit {0}) × db.Database

  abbrev pub saved : db.Database → Result String db.Database → Saved
  saved d (ok d') = (ok tt, d')
  saved d (err e) = (err (config_parse e), d)

  -- `serde_json::to_string`, a write transaction and its commit
  abbrev pub put_text : String → db.Database → Result String String → Saved
  put_text key d (err e) = (err (config_parse e), d)
  put_text key d (ok text) = saved d (db.insert key text d)

  unfoldable pub put_record : String → A → db.Database → Saved
  put_record key a d = put_text key d (json.to_json a)

  unfoldable pub delete_record : String → db.Database → Saved
  delete_record key d = saved d (db.remove key d)

  abbrev pub parsed : Option String → Result AvixError (Option A)
  parsed none = ok none
  parsed (some text) = map_err config_parse (json.from_json text >>= λ a. ok (some a))

  unfoldable pub get_record : String → db.Database → Result AvixError (Option A)
  get_record key d = map_err config_parse (db.get key d) >>= parsed

  abbrev pub parse_all : List String → Result AvixError (List A)
  parse_all [] = ok []
  parse_all (text ∷ rest) = map_err config_parse (json.from_json text) >>= λ a.
      parse_all rest >>= λ others. ok (a ∷ others)

  unfoldable pub all_records : db.Database → Result AvixError (List A)
  all_records d = map_err config_parse (db.iter d) >>= parse_all

  -- What the stores rely on: a text that was written is found under its key, and a record that was turned
  -- into text is read back from it.
  pub record IsFaithful : Type 0 where
    pub get_insert :
        (key text : String) (d d' : db.Database)
        → db.insert key text d ≡ ok d'
        → db.get key d' ≡ ok (some text)
    pub read_back : (a : A) (text : String) → json.to_json a ≡ ok text → json.from_json text ≡ ok a

  saved_ok :
      (key text : String) (a : A) (d : db.Database)
      → IsFaithful
      → json.from_json text ≡ ok a
      → (saved d (db.insert key text d)).0 ≡ ok tt
      → get_record key (saved d (db.insert key text d)).1 ≡ ok (some a)
  unfolding get_record
  saved_ok key text a d faithful r h = elim (Result-cases (db.insert key text d)) [
    | inl (d', e) ↦
        rw (e, saved) (rw (get_record, faithful.get_insert key text d d' e, parsed, r) refl)
    | inr (x, e) ↦ absurd (ground (arith, e, h))
  ]

  -- A record that is put is what is read under its key.
  pub get_record-put_record :
      (key : String) (a : A) (d : db.Database)
      → IsFaithful
      → (put_record key a d).0 ≡ ok tt
      → get_record key (put_record key a d).1 ≡ ok (some a)
  unfolding put_record
  get_record-put_record key a d faithful h = elim (Result-cases (json.to_json a)) [
    | inl (text, e) ↦
        rw (e, put_text)
          (saved_ok key text a d faithful (faithful.read_back a text e) (ground (arith, e, h)))
    | inr (x, e) ↦ absurd (ground (arith, e, h))
  ]

-- ===== src/Base/Redb/Samples.antt =====
-- A database and a format of records for the examples: a dictionary of texts, and the names of two records.
use Prim.Native.String.{String}
use mathlib.Core.Path.{◌≡◌, refl, ap, sym, subst}
use mathlib.Core.Bool.{Bool, true, false}
use mathlib.Core.Option.{some}
use native.Mathlib.Omega.{arith}
use avix.Base.Tests.{if◌then◌else◌, ◌==◌, eq_of_beq, ne_of_beq, string_eq}
use avix.Base.Dict.{Dict, insert, get, remove, values, get-insert_self}
use avix.Base.Redb.{Redb, Json, IsFaithful}
use avix.Errors.{Result, ok, err}

-- The equality of texts, as a decision that computes.
unfoldable pub string_discrete : Discrete String
string_discrete a b = by_test (a == b) refl
  where
    by_test : (t : Bool) → (a == b) ≡ t → Dec (a ≡ b)
    by_test true h = yes (eq_of_beq a b h)
    by_test false h = no (ne_of_beq a b h)

abbrev pub texts : Redb
texts = record {
  Database = Dict String String;
  insert = λ key text d. ok (insert key text d);
  remove = λ key d. ok (remove key d);
  get = λ key d. ok (get key d);
  iter = λ d. ok (values d);
}

module _ {A : Type 0} (same : Discrete A) (first second : A) where
  abbrev pub name_by : (a : A) → Dec (a ≡ first) → Dec (a ≡ second) → Result String String
  name_by a (yes _) _ = ok "first"
  name_by a (no _) (yes _) = ok "second"
  name_by a (no _) (no _) = err "no name"

  abbrev pub named : String → Result String A
  named name =
      if name == "first" then ok first else if name == "second" then ok second else err "no record"

  abbrev pub names : Json A
  names = record { to_json = λ a. name_by a (same a first) (same a second); from_json = named }

  named-name_by :
      (a : A) (text : String) (is_first : Dec (a ≡ first)) (is_second : Dec (a ≡ second))
      → name_by a is_first is_second ≡ ok text
      → named text ≡ ok a
  named-name_by a text (yes p) q h =
      subst (λ t. named t ≡ ok a) {x = "first"} {y = text} (ground (arith, h)) (ap ok (sym p))
  named-name_by a text (no _) (yes p) h =
      subst (λ t. named t ≡ ok a) {x = "second"} {y = text} (ground (arith, h)) (ap ok (sym p))
  named-name_by a text (no _) (no _) h = absurd (ground (arith, h))

  pub names-IsFaithful : IsFaithful texts names
  unfolding insert get
  names-IsFaithful = record {
    get_insert = λ key text d d' h.
        subst (λ t. texts.get key t ≡ ok (some text)) {x = insert key text d} {y = d'}
          (ground (arith, h)) (ap ok (get-insert_self key text d));
    read_back = λ a text h. named-name_by a text (same a first) (same a second) h;
  }

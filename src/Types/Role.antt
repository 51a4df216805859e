-- ===== src/Types/Role.antt =====
-- crates/avix-core/src/types/role.rs: the four roles, in ascending order of authority.
use avix.Base.{
  ℕ, ◌≤◌, ◌≡◌, refl, ◌↔◌, String, Bool, true, false, ◌||◌, ◌==◌, leb, ltb, if◌then◌else◌, arith,
  eq_iff, ◌+++◌, string_eq,
}
use avix.Errors.{AvixError, config_parse, Result, ok, err}

pub data Role : Type 0 where
  guest user operator admin : Role

-- The discriminants, by which the derived `Ord` compares.
abbrev pub rank : Role → ℕ
rank guest = 0
rank user = 1
rank operator = 2
rank admin = 3

-- `a >= b` and `a < b` on roles
abbrev pub at_least : Role → Role → Bool
at_least a b = leb (rank b) (rank a)

abbrev pub below : Role → Role → Bool
below a b = ltb (rank a) (rank b)

unfoldable pub can_access_domain : Role → String → Bool
can_access_domain r domain =
    if domain == "proc" || domain == "fs" || domain == "llm" || domain == "exec" || domain == "jobs"
    then true
    else if domain == "sys" || domain == "cap"
    then at_least r admin
    else if domain == "kernel"
    then at_least r operator
    else false

unfoldable pub display_role : Role → String
display_role admin = "admin"
display_role operator = "operator"
display_role user = "user"
display_role guest = "guest"

unfoldable pub parse_role : String → Result AvixError Role
parse_role s =
    if s == "admin"
    then ok admin
    else if s == "operator"
    then ok operator
    else if s == "user"
    then ok user
    else if s == "guest"
    then ok guest
    else err (config_parse ("unknown role: " +++ s))

parse_role-display_role : (r : Role) → parse_role (display_role r) ≡ ok r
unfolding parse_role display_role
parse_role-display_role guest = refl
parse_role-display_role user = refl
parse_role-display_role operator = refl
parse_role-display_role admin = refl

display_role_of_parse_role : (s : String) (r : Role) → parse_role s ≡ ok r → s ≡ display_role r
unfolding parse_role display_role
display_role_of_parse_role s r h =
    ground (arith, eq_iff s "admin", eq_iff s "operator", eq_iff s "user", eq_iff s "guest")

-- A text parses to a role exactly when it is the role's printed name.
pub parse_role_iff : (s : String) (r : Role) → (parse_role s ≡ ok r) ↔ (s ≡ display_role r)
parse_role_iff s r = (display_role_of_parse_role s r, λ e. rw e (parse_role-display_role r))

-- A role reaches every domain that a lower role reaches.
pub can_access_domain_mono :
    (r q : Role) (domain : String)
    → rank r ≤ rank q
    → can_access_domain r domain ≡ true
    → can_access_domain q domain ≡ true
unfolding can_access_domain
can_access_domain_mono r q domain h a = ground arith

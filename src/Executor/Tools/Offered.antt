-- ===== src/Executor/Tools/Offered.antt =====
-- crates/avix-core/src/executor/tool_registration.rs and crates/avix-core/src/executor/tool_manager.rs: which
-- tools are offered, and that a removed one is not.
use mathlib.Core.List.{Memᴰ}
use mathlib.Core.List.Memᴰ
use avix.Base.{
  String, string_eq, Bool, true, false, ◌&&◌, ◌||◌, ◌==◌, beq_self, if◌then◌else◌, List, [], ◌∷◌,
  ◌++◌, contains, contains-keep, contains-append, count, keep, All, some, Bool-cases, ◌≡◌, ◌≢◌, inl,
  inr, refl, ap, sym, subst, eq_of_beq, arith,
}
use avix.Types.Token.{CapabilityToken, has_tool}
use avix.Types.Tool.{ToolVisibility, mangle}
use avix.Types.CapabilityMap.{map_always_present, all_gated_cat2_tools}
use avix.Base.Json.{Json}
use avix.Executor.Descriptors.{
  cat2_tool_descriptor, descriptor_name, descriptor_name-cat2_tool_descriptor,
}
use avix.Executor.Tools.{
  all_for, first_of_each, compute_cat2_tools, ToolManager, cat2_descriptors, cat1_left,
  refresh_tool_list, is_removed, is_shown, current_tool_list, handle_tool_changed,
}

abbrev pub tool_names : List (String × ToolVisibility) → List String
tool_names [] = []
tool_names ((name, _) ∷ rest) = name ∷ tool_names rest

count-first_of_each :
    (t : String) (seen : List String) (ts : List (String × ToolVisibility))
    → count t (tool_names (first_of_each seen ts))
      ≡ (if contains seen t then 0 else if contains (tool_names ts) t then 1 else 0)
unfolding first_of_each
count-first_of_each t seen [] = ground arith
count-first_of_each t seen ((name, v) ∷ ts) = elim (Bool-cases (contains seen name)) [
  | inl old ↦
      rw (first_of_each, old)
        (ground (arith, old, count-first_of_each t seen ts, string_eq.equal_iff name t))
  | inr new ↦
      rw (first_of_each, new)
        (ground (arith, new, count-first_of_each t (name ∷ seen) ts, string_eq.equal_iff name t))
]

contains-all_for :
    (t u : String) (xs ys : List String)
    → contains (tool_names (all_for u xs ++ all_for u ys)) t ≡ (contains xs t || contains ys t)
contains-all_for t u [] [] = refl
contains-all_for t u [] (y ∷ ys) = ground (arith, contains-all_for t u [] ys)
contains-all_for t u (x ∷ xs) ys = ground (arith, contains-all_for t u xs ys)

count-union :
    (t u : String) (xs ys : List String) (p : String → Bool)
    → count t (tool_names (first_of_each [] (all_for u xs ++ all_for u (keep p ys))))
      ≡ (if contains xs t || contains ys t && p t then 1 else 0)
count-union t u xs ys p = ground (
  arith,
  count-first_of_each t [] (all_for u xs ++ all_for u (keep p ys)),
  contains-all_for t u xs (keep p ys),
  contains-keep p ys t,
)

hidden_name :
    (removed : List String) (t : String) (d : Json)
    → is_removed removed t ≡ true
    → is_shown removed (descriptor_name d) ≡ true
    → descriptor_name d ≢ some t
hidden_name removed t d gone shown same =
    absurd (ground (arith, gone, shown, ap (is_shown removed) same))

-- An agent is offered a tool of category 2 once when the tool is always present, or is gated and in the
-- agent's token; it is offered no other.
pub count-compute_cat2_tools :
    (token : CapabilityToken) (username t : String)
    → count t (tool_names (compute_cat2_tools token username)) ≡ (
        if contains map_always_present t || contains all_gated_cat2_tools t && has_tool token t
        then 1
        else 0)
unfolding compute_cat2_tools
count-compute_cat2_tools token username t =
    count-union t username map_always_present all_gated_cat2_tools (λ name. has_tool token name)

-- The descriptors that are shown, of any list of tools
shown_only :
    (removed : List String) (t : String) (ds : List Json)
    → is_removed removed t ≡ true
    → is_removed removed (mangle t) ≡ true
    → All
        (λ d. (descriptor_name d ≢ some t) × (descriptor_name d ≢ some (mangle t)))
        (keep (λ d. is_shown removed (descriptor_name d)) ds)
shown_only removed t [] plain mangled = tt
shown_only removed t (d ∷ ds) plain mangled =
    elim (Bool-cases (is_shown removed (descriptor_name d))) [
      | inr f ↦ rw (f, keep) (shown_only removed t ds plain mangled)
      | inl s ↦
          rw (s, keep)
            (
              (hidden_name removed t d plain s, hidden_name removed (mangle t) d mangled s),
              shown_only removed t ds plain mangled,
            )
    ]

is_removed-contains :
    (removed : List String) (t : String)
    → contains removed t ≡ true
    → (is_removed removed t ≡ true) × (is_removed removed (mangle t) ≡ true)
is_removed-contains [] t h = absurd (ground (arith, h))
is_removed-contains (r ∷ rest) t h = elim (Bool-cases (r == t)) [
  | inl same ↦
      subst (λ x. (is_removed (x ∷ rest) t ≡ true) × (is_removed (x ∷ rest) (mangle t) ≡ true))
        {x = t} {y = r} (sym (eq_of_beq r t same))
        (ground (arith, beq_self t), ground (arith, beq_self (mangle t)))
  | inr other ↦
      let (plain, mangled) = is_removed-contains rest t (ground (arith, h, other)) in
      (ground (arith, plain), ground (arith, mangled))
]

Mem-cat2_descriptors :
    (removed : List String) (t : String) (ts : List (String × ToolVisibility))
    → contains (tool_names ts) t ≡ true
    → contains removed t ≡ false
    → Memᴰ (cat2_tool_descriptor t) (cat2_descriptors removed ts)
Mem-cat2_descriptors removed t [] h k = absurd (ground (arith, h))
Mem-cat2_descriptors removed t ((name, v) ∷ ts) h k = elim (Bool-cases (name == t)) [
  | inl same ↦
      subst (λ n. Memᴰ (cat2_tool_descriptor t) (cat2_descriptors removed ((n, v) ∷ ts))) {x = t}
        {y = name} (sym (eq_of_beq name t same)) (rw (cat2_descriptors, k) (Memᴰ.head refl))
  | inr other ↦
      let rest = Mem-cat2_descriptors removed t ts (ground (arith, h, other)) k in
      elim (Bool-cases (contains removed name)) [
        | inl gone ↦ rw (cat2_descriptors, gone) rest
        | inr left ↦ rw (cat2_descriptors, left) (Memᴰ.tail rest)
      ]
]

Mem-keep :
    (p : Json → Bool) (d : Json) (ds : List Json) → p d ≡ true → Memᴰ d ds → Memᴰ d (keep p ds)
Mem-keep p d [] h m = elim m [ ]
Mem-keep p d (x ∷ xs) h (Memᴰ.head e) = rw (keep, sym e, h) (Memᴰ.head refl)
Mem-keep p d (x ∷ xs) h (Memᴰ.tail m) = elim (Bool-cases (p x)) [
  | inl t ↦ rw (t, keep) (Memᴰ.tail (Mem-keep p d xs h m))
  | inr f ↦ rw (f, keep) (Mem-keep p d xs h m)
]

-- What a removed tool is called is not among the descriptors.
abbrev pub IsHidden : String → List Json → Type 0
IsHidden t ds = All (λ d. (descriptor_name d ≢ some t) × (descriptor_name d ≢ some (mangle t))) ds

contains-removed :
    (t : String) (m : ToolManager)
    → contains (handle_tool_changed "removed" t m).removed_tools t ≡ true
unfolding handle_tool_changed
contains-removed t m = elim (Bool-cases (contains m.removed_tools t)) [
  | inl known ↦ rw (known, handle_tool_changed) known
  | inr new ↦
      rw (new, handle_tool_changed)
        (ground (arith, contains-append m.removed_tools (t ∷ []) t, beq_self t))
]

current_tool_list-IsHidden :
    (t : String) (m : ToolManager)
    → contains m.removed_tools t ≡ true
    → IsHidden t (current_tool_list m)
unfolding current_tool_list
current_tool_list-IsHidden t m h =
    let (plain, mangled) = is_removed-contains m.removed_tools t h in
    shown_only m.removed_tools t m.tool_list plain mangled

-- Once a tool is announced as removed, no tool of its name, plain or mangled, is shown to the model, before
-- or after the list of tools is made again.
pub handle_tool_changed-IsHidden :
    (token : CapabilityToken) (username t : String) (m : ToolManager)
    → IsHidden t (current_tool_list (handle_tool_changed "removed" t m))
      × IsHidden t
          (current_tool_list (refresh_tool_list token username (handle_tool_changed "removed" t m)))
unfolding refresh_tool_list
handle_tool_changed-IsHidden token username t m =
    let gone = contains-removed t m in
    (
      current_tool_list-IsHidden t (handle_tool_changed "removed" t m) gone,
      current_tool_list-IsHidden t
          (refresh_tool_list token username (handle_tool_changed "removed" t m)) gone,
    )

-- When the list of tools is made again, it shows the descriptor of each tool of category 2 of the agent's
-- that has the name of no removed tool, plain or mangled.
pub Mem-current_tool_list :
    (token : CapabilityToken) (username t : String) (m : ToolManager)
    → contains (tool_names (compute_cat2_tools token username)) t ≡ true
    → is_removed m.removed_tools t ≡ false
    → Memᴰ (cat2_tool_descriptor t) (current_tool_list (refresh_tool_list token username m))
unfolding current_tool_list refresh_tool_list
Mem-current_tool_list token username t m offered shown =
    elim (Bool-cases (contains m.removed_tools t)) [
      | inl gone ↦
          let (plain, _) = is_removed-contains m.removed_tools t gone in
          absurd (ground (arith, plain, shown))
      | inr left ↦
          Mem-keep (λ d. is_shown m.removed_tools (descriptor_name d)) (cat2_tool_descriptor t) _
            (rw (descriptor_name-cat2_tool_descriptor t, is_shown, shown) refl)
            (Memᴰ.append_left (cat1_left m.removed_tools m.cat1_descriptors) (
              Mem-cat2_descriptors m.removed_tools t (compute_cat2_tools token username) offered
                left))
    ]

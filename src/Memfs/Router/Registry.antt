-- ===== src/Memfs/Router/Registry.antt =====
-- crates/avix-core/src/memfs/router.rs: what the registry of tools changes for a reader of files.
use Prim.Native.Char.{Char, code}
use text.Mathlib.TextEquality.{starts_with_iff}
use text.Mathlib.TextLemmas.{cons-append}
use avix.Base.{
  ℕ, String, string_eq, true, false, ◌==◌, starts_with, ◌+++◌, List, [], ◌∷◌, Option, none, some,
  Option-cases, Bool-cases, ◌≡◌, inl, inr, refl, sym, ap, subst, ◌∙◌, arith,
}
use avix.Base.Dict.{Dict, get, modify, contains_key}
use avix.Errors.{AvixError, Result, ok, err}
use avix.Memfs.Context.{for_path, vfs_can_read}
use avix.Memfs.Vfs.{MemFs}
use avix.Memfs.Router.{
  covers, find_mount, Outside, VfsRouter, set_tool_registry, guard_caller, fill_tools, fill_mounted,
  populate_tools, read_routed, read_guarded, read,
}

first_char : String → ℕ
first_char String.[] = 0
first_char (String.◌∷◌ c s) = code c

first_char-append : (c : Char) (s t : String) → first_char (String.◌∷◌ c s +++ t) ≡ code c
unfolding first_char
first_char-append c s t = ap first_char (cons-append c s t)

apart : (m n : ℕ) → m ≡ 47 → n ≡ 116 → m ≡ n → ⊥
apart m n h k e = absurd (ground arith)

unlike : (path : String) → starts_with path "/" ≡ true → starts_with path "tools/" ≡ true → ⊥
unlike path h k =
    let (u, e) = (starts_with_iff path "/").0 h in
    let (v, f) = (starts_with_iff path "tools/").0 k in
    apart (first_char ("/" +++ u)) (first_char ("tools/" +++ v)) (first_char-append "/" "" u)
      (first_char-append "t" "ools/" v) (ap first_char (e ∙ sym f))

pub absolute-uncovered : (path : String) → starts_with path "/" ≡ true → covers "tools" path ≡ false
unfolding covers
absolute-uncovered path h = elim (Bool-cases (starts_with path "tools/")) [
  | inl t ↦ absurd (unlike path h t)
  | inr f ↦ elim (Bool-cases (path == "tools")) [
    | inl t ↦
        let same : path ≡ "tools" = (string_eq.equal_iff path "tools").0 t in
        absurd
          (ground (arith, subst (λ p. starts_with p "/" ≡ true) {x = path} {y = "tools"} same h))
    | inr k ↦ rw (f, k) refl
  ]
]

module _ {A : Type 0} where
  -- A mount that does not cover the path may change as it likes.
  find_mount-modify_other :
      (path k : String) (f : A → A) (ms : List (String × A))
      → covers k path ≡ false
      → find_mount path (modify k f ms) ≡ find_mount path ms
  unfolding find_mount modify
  find_mount-modify_other path k f [] h = refl
  find_mount-modify_other path k f ((q, a) ∷ ms) h =
      ground (arith, find_mount-modify_other path k f ms h, string_eq.equal_iff q k)

module _ (outside : Outside) where
  read_remounted :
      (path : String) (mounts : Dict String MemFs) (r : VfsRouter outside)
      → find_mount path mounts ≡ find_mount path r.mem_mounts
      → read_routed outside path (record r { mem_mounts = mounts }) ≡ read_routed outside path r
  unfolding read_routed
  read_remounted path mounts r h = elim (Option-cases (find_mount path r.mounts)) [
    | inl e ↦ rw (e, h, read_routed) refl
    | inr ((p, a), e) ↦ rw (e, read_routed) refl
  ]

  read_filled :
      (path : String) (fs : Option MemFs) (registry : Option outside.Registry)
      (r : VfsRouter outside)
      → covers "tools" path ≡ false
      → read_routed outside path (fill_mounted outside fs registry r) ≡ read_routed outside path r
  read_filled path none registry r h = refl
  read_filled path (some fs) none r h = refl
  read_filled path (some fs) (some registry) r h =
      elim (Bool-cases (contains_key "/tools/index.yaml" fs)) [
        | inl t ↦ rw (t, fill_tools) refl
        | inr f ↦
            rw (f, fill_tools)
              (read_remounted path (modify "tools" (λ _. outside.populate registry fs) r.mem_mounts)
                r
                (find_mount-modify_other path "tools" (λ _. outside.populate registry fs)
                  r.mem_mounts h))
      ]

  pub read_populated :
      (path : String) (r : VfsRouter outside)
      → covers "tools" path ≡ false
      → read_routed outside path (populate_tools outside path r) ≡ read_routed outside path r
  read_populated path r h = elim (Bool-cases (starts_with path "/tools")) [
    | inl t ↦
        rw (t, populate_tools) (read_filled path (get "tools" r.mem_mounts) r.tool_registry r h)
    | inr f ↦ rw (f, populate_tools) refl
  ]

  -- The answer of a read, had it not filled the directory of tools
  abbrev plain_read :
      Result AvixError (Unit {0}) → String → VfsRouter outside → Result AvixError (List ℕ)
  plain_read (err e) path r = err e
  plain_read (ok _) path r = read_routed outside path r

  read_plain :
      (gate : Result AvixError (Unit {0})) (path : String) (r : VfsRouter outside)
      → covers "tools" path ≡ false
      → (read_guarded outside gate path r).0 ≡ plain_read gate path r
  read_plain (err e) path r h = refl
  read_plain (ok u) path r h = read_populated path r h

  plain_read-set_tool_registry :
      (gate : Result AvixError (Unit {0})) (path : String) (registry : outside.Registry)
      (r : VfsRouter outside)
      → plain_read gate path (set_tool_registry outside registry r) ≡ plain_read gate path r
  unfolding read_routed
  plain_read-set_tool_registry (err e) path registry r = refl
  plain_read-set_tool_registry (ok u) path registry r = refl

  -- The registry of tools changes nothing for a reader of an absolute path: whichever registry is set,
  -- and whichever was set before, the read gives the same bytes or the same error.
  pub read-set_tool_registry :
      (path : String) (registry : outside.Registry) (r : VfsRouter outside)
      → starts_with path "/" ≡ true
      → (read outside path (set_tool_registry outside registry r)).0 ≡ (read outside path r).0
  unfolding read read_routed
  read-set_tool_registry path registry r h =
      let uncovered = absolute-uncovered path h in
      let gate = guard_caller outside "read" (vfs_can_read (for_path path)) path r in
      read_plain gate path (set_tool_registry outside registry r) uncovered
      ∙ plain_read-set_tool_registry gate path registry r
      ∙ sym (read_plain gate path r uncovered)

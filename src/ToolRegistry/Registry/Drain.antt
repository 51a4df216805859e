-- ===== src/ToolRegistry/Registry/Drain.antt =====
-- What draining a tool waits for, whatever happens to the registry meanwhile.
use avix.Base.{
  count, drop_one, ℕ, ◌≡◌, ◌↔◌, refl, String, true, string_eq, nat_eq, List, [], ◌∷◌, some, arith,
  contains,
}
use avix.Base.Dict.{get}
use avix.Errors.{ok}
use avix.Types.Tool.{ToolState}
use avix.ToolRegistry.Registry.{
  ToolEntry, ToolRecord, ToolRegistry, add, mark_unavailable, semaphore_of, is_drained,
  remove_entries, acquire, release, empty, set_state,
}
use avix.ToolRegistry.Registry.Balance.{
  IsBalanced, send-IsBalanced, add_entries-IsBalanced, mark_unavailable-IsBalanced,
  remove_names-IsBalanced, removed_event-IsBalanced, acquire-IsBalanced, release-IsBalanced,
  set_state-IsBalanced,
}

module _ {Value : Type 0} where
  -- What can happen to the registry while calls are running.
  pub data Step : ToolRegistry Value → List ℕ → ToolRegistry Value → List ℕ → Type 0 where
    adds :
        (entries : List (ToolEntry Value)) (reg : ToolRegistry Value) (gs : List ℕ)
        → Step reg gs (add entries reg) gs
    acquires :
        (name : String) (s : ℕ) (reg reg' : ToolRegistry Value) (gs : List ℕ)
        → acquire name reg ≡ some (ok s, reg')
        → Step reg gs reg' (s ∷ gs)
    releases :
        (s : ℕ) (reg : ToolRegistry Value) (gs : List ℕ)
        → contains gs s ≡ true
        → Step reg gs (release s reg) (drop_one s gs)
    marks :
        (names : List String) (reg : ToolRegistry Value) (gs : List ℕ)
        → Step reg gs (mark_unavailable names reg) gs
    removes :
        (names : List String) (reason : String) (reg : ToolRegistry Value) (gs : List ℕ)
        → Step reg gs (remove_entries names reason reg) gs
    sets_state :
        (name : String) (state : ToolState) (reg : ToolRegistry Value) (gs : List ℕ)
        → Step reg gs (set_state name state reg).1 gs

  -- Whatever happens to the registry while calls run, its permits and the running calls stay balanced.
  pub Step-IsBalanced :
      {reg reg' : ToolRegistry Value} {gs gs' : List ℕ}
      → Step reg gs reg' gs'
      → IsBalanced reg gs
      → IsBalanced reg' gs'
  unfolding add remove_entries
  Step-IsBalanced (adds entries reg gs) v =
      send-IsBalanced "added" _ _ gs (add_entries-IsBalanced entries reg gs v)
  Step-IsBalanced (acquires name s reg reg' gs e) v = acquire-IsBalanced name s reg reg' gs v e
  Step-IsBalanced (releases s reg gs held) v = release-IsBalanced s reg gs v held
  Step-IsBalanced (marks names reg gs) v = mark_unavailable-IsBalanced names reg gs v
  Step-IsBalanced (removes names reason reg gs) v =
      removed_event-IsBalanced _ reason _ gs (remove_names-IsBalanced names reg gs v)
  Step-IsBalanced (sets_state name state reg gs) v = set_state-IsBalanced name state reg gs v

  pub data Reach : ToolRegistry Value → List ℕ → Type 0 where
    start : Reach empty []
    next :
        {reg reg' : ToolRegistry Value} {gs gs' : List ℕ}
        → Reach reg gs
        → Step reg gs reg' gs'
        → Reach reg' gs'

  empty-IsBalanced : IsBalanced (empty {Value = Value}) []
  unfolding empty get
  empty-IsBalanced = record {
    balanced = λ s. refl;
    fresh = λ s h. refl;
    known = λ name r h. absurd (ground arith);
  }

  Reach-IsBalanced : {reg : ToolRegistry Value} {gs : List ℕ} → Reach reg gs → IsBalanced reg gs
  Reach-IsBalanced start = empty-IsBalanced
  Reach-IsBalanced (next r st) = Step-IsBalanced st (Reach-IsBalanced r)

  -- The wait of `remove` for a tool is over exactly when no call holds a guard of the semaphore that the tool's
  -- record had when the wait began, in every registry that can come about, also where the tool was added again,
  -- or removed, since.
  pub is_drained_iff :
      {reg : ToolRegistry Value} {gs : List ℕ} (name : String) (begun : ToolRegistry Value)
      (r : ToolRecord Value)
      → Reach reg gs
      → get name begun.inner ≡ some r
      → (is_drained (semaphore_of name begun) reg ≡ true) ↔ (count r.semaphore gs ≡ 0)
  unfolding is_drained
  is_drained_iff name begun r reach e =
      rw (e, is_drained) (ground (arith, (Reach-IsBalanced reach).balanced r.semaphore))

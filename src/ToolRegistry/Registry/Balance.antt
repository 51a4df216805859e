-- ===== src/ToolRegistry/Registry/Balance.antt =====
-- Calls in flight and the permits of their tools: each operation keeps them balanced.
use avix.Base.{
  ℕ, ◌+◌, ◌-◌, ◌≤◌, ◌<◌, ◌≡◌, subst, String, true, string_eq, nat_eq, List, [], ◌∷◌, none, some,
  arith, contains, count, drop_one, count-drop_one, inl, inr, Option-cases,
}
use avix.Base.Dict.{get, remove, get-insert, get-remove, get-modify}
use avix.Errors.{ok}
use avix.Types.Tool.{ToolState}
use avix.ToolRegistry.Registry.{
  ToolEntry, ToolRecord, ToolRegistry, max_permits, add_entry, add_entries, send, removed_event,
  marked, mark_unavailable, permits, remove_names, acquire, take_permit, release, set_state,
}

module _ {Value : Type 0} where
  -- Every guard stands for one permit that is not free; ids from `next_semaphore` on are unused.
  pub record IsBalanced (reg : ToolRegistry Value) (guards : List ℕ) : Type 0 where
    pub balanced : (s : ℕ) → permits s reg + count s guards ≡ max_permits
    pub fresh : (s : ℕ) → reg.next_semaphore ≤ s → get s reg.semaphores ≡ none
    pub known :
        (name : String) (r : ToolRecord Value)
        → get name reg.inner ≡ some r
        → r.semaphore < reg.next_semaphore

  pub send-IsBalanced :
      (op : String) (tools : List String) (reg : ToolRegistry Value) (gs : List ℕ)
      → IsBalanced reg gs
      → IsBalanced (send op tools reg) gs
  unfolding send
  send-IsBalanced op tools reg gs v = record {
    balanced = v.balanced;
    fresh = v.fresh;
    known = v.known;
  }

  add_entry-IsBalanced :
      (entry : ToolEntry Value) (reg : ToolRegistry Value) (gs : List ℕ)
      → IsBalanced reg gs
      → IsBalanced (add_entry entry reg) gs
  unfolding add_entry
  add_entry-IsBalanced entry reg gs v = record {
    balanced = λ s. ground (
      arith,
      v.balanced s,
      v.fresh reg.next_semaphore (omega arith),
      get-insert reg.next_semaphore s max_permits reg.semaphores,
    );
    fresh = λ s h.
        ground (arith, v.fresh s, get-insert reg.next_semaphore s max_permits reg.semaphores);
    known = λ name r h. ground (
      arith,
      v.known name r,
      get-insert entry.name name (record { entry = entry; semaphore = reg.next_semaphore })
          reg.inner,
    );
  }

  pub add_entries-IsBalanced :
      (entries : List (ToolEntry Value)) (reg : ToolRegistry Value) (gs : List ℕ)
      → IsBalanced reg gs
      → IsBalanced (add_entries entries reg) gs
  unfolding add_entries
  add_entries-IsBalanced [] reg gs v = v
  add_entries-IsBalanced (e ∷ es) reg gs v =
      add_entries-IsBalanced es (add_entry e reg) gs (add_entry-IsBalanced e reg gs v)

  pub mark_unavailable-IsBalanced :
      (names : List String) (reg : ToolRegistry Value) (gs : List ℕ)
      → IsBalanced reg gs
      → IsBalanced (mark_unavailable names reg) gs
  unfolding mark_unavailable
  mark_unavailable-IsBalanced [] reg gs v = v
  mark_unavailable-IsBalanced (n ∷ ns) reg gs v = mark_unavailable-IsBalanced ns _ gs (record {
    balanced = v.balanced;
    fresh = v.fresh;
    known = λ name r h. elim (Option-cases (get name reg.inner)) [
      | inl e ↦ absurd (ground (arith, get-modify n name marked reg.inner))
      | inr (q, e) ↦ ground (arith, v.known name q e, get-modify n name marked reg.inner)
    ];
  })

  pub remove_names-IsBalanced :
      (names : List String) (reg : ToolRegistry Value) (gs : List ℕ)
      → IsBalanced reg gs
      → IsBalanced (remove_names names reg).1 gs
  unfolding remove_names
  remove_names-IsBalanced [] reg gs v = v
  remove_names-IsBalanced (n ∷ ns) reg gs v =
      remove_names-IsBalanced ns (record reg { inner = remove n reg.inner }) gs
        (record {
          balanced = v.balanced;
          fresh = v.fresh;
          known = λ name r h. v.known name r (ground (arith, get-remove n name reg.inner));
        })

  pub removed_event-IsBalanced :
      (removed : List String) (reason : String) (reg : ToolRegistry Value) (gs : List ℕ)
      → IsBalanced reg gs
      → IsBalanced (removed_event removed reason reg) gs
  removed_event-IsBalanced [] reason reg gs v = v
  removed_event-IsBalanced (n ∷ ns) reason reg gs v = send-IsBalanced _ (n ∷ ns) reg gs v

  pub acquire_eq_ok :
      (name : String) (s : ℕ) (reg reg' : ToolRegistry Value)
      → acquire name reg ≡ some (ok s, reg')
      → (r : ToolRecord Value) × (get name reg.inner ≡ some r)
        × (r.semaphore ≡ s)
        × (0 < permits s reg)
        × (reg' ≡ take_permit s reg)
  unfolding acquire
  acquire_eq_ok name s reg reg' h = elim (Option-cases (get name reg.inner)) [
    | inl e ↦ absurd (ground arith)
    | inr (r, e) ↦ (r, e, ground arith, ground arith, ground arith)
  ]

  take_permit-IsBalanced :
      (s : ℕ) (reg : ToolRegistry Value) (gs : List ℕ)
      → IsBalanced reg gs
      → s < reg.next_semaphore
      → 0 < permits s reg
      → IsBalanced (take_permit s reg) (s ∷ gs)
  take_permit-IsBalanced s reg gs v used free = record {
    balanced = λ t.
        ground
          (arith, v.balanced s, v.balanced t, get-insert s t (permits s reg - 1) reg.semaphores);
    fresh = λ t h. ground (arith, v.fresh t, get-insert s t (permits s reg - 1) reg.semaphores);
    known = v.known;
  }

  pub acquire-IsBalanced :
      (name : String) (s : ℕ) (reg reg' : ToolRegistry Value) (gs : List ℕ)
      → IsBalanced reg gs
      → acquire name reg ≡ some (ok s, reg')
      → IsBalanced reg' (s ∷ gs)
  acquire-IsBalanced name s reg reg' gs v h =
      let (r, found, same, free, taken) = acquire_eq_ok name s reg reg' h in
      rw taken (
        take_permit-IsBalanced s reg gs v
          (subst (λ t. t < reg.next_semaphore) same (v.known name r found)) free)

  pub release-IsBalanced :
      (s : ℕ) (reg : ToolRegistry Value) (gs : List ℕ)
      → IsBalanced reg gs
      → contains gs s ≡ true
      → IsBalanced (release s reg) (drop_one s gs)
  unfolding release
  release-IsBalanced s reg gs v held = record {
    balanced = λ t. ground (
      arith,
      v.balanced s,
      v.balanced t,
      count-drop_one s t gs held,
      count-drop_one s s gs held,
      get-insert s t (permits s reg + 1) reg.semaphores,
    );
    fresh = λ t h. ground (
      arith,
      v.fresh t h,
      v.balanced s,
      count-drop_one s s gs held,
      get-insert s t (permits s reg + 1) reg.semaphores,
    );
    known = v.known;
  }

  pub set_state-IsBalanced :
      (name : String) (state : ToolState) (reg : ToolRegistry Value) (gs : List ℕ)
      → IsBalanced reg gs
      → IsBalanced (set_state name state reg).1 gs
  unfolding set_state
  set_state-IsBalanced name state reg gs v = elim (Option-cases (get name reg.inner)) [
    | inl e ↦ rw (e, set_state) v
    | inr (q, e) ↦
        rw (e, set_state)
          (record {
            balanced = v.balanced;
            fresh = v.fresh;
            known = λ n r h. ground (
              arith,
              v.known name q e,
              v.known n r,
              get-insert name n (record q { entry = record q.entry { state = state } }) reg.inner,
            );
          })
  ]

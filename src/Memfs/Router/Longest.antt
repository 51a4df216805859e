-- ===== src/Memfs/Router/Longest.antt =====
-- crates/avix-core/src/memfs/router.rs: which mount a path is routed to.
use avix.Base.{
  ℕ, ◌≤◌, String, string_eq, true, not, ◌==◌, starts_with, List, [], ◌∷◌, ◌++◌, keep, All, Option,
  none, some, Option-cases, Bool-cases, ◌≡◌, inl, inr, arith,
}
use avix.Base.Dict.{get, modify, contains_key}
use avix.Errors.{AvixError, Result, err, ok, Result-cases}
use avix.Memfs.Context.{VfsCallerContext, for_path, vfs_can_read, vfs_can_write}
use avix.Memfs.Vfs.{MemFs, write_file, delete_file}
use avix.Memfs.Path.{trim_end, byte_len}
use avix.Memfs.Router.{
  covers, insert_mount, sort_mounts, add_mount, find_mount, Outside, VfsRouter, new_router,
  set_tool_registry, set_permissions_store, clone_router, set_caller, mount, mount_memfs,
  route_effect, guard_caller, guarded_effect, fill_tools, fill_mounted, read_guarded, write, delete,
  populate_tools, read,
}

module _ {A : Type 0} where
  abbrev Below : ℕ → List (String × A) → Type 0
  Below n ms = All (λ (m : String × A). byte_len m.0 ≤ n) ms

  -- Longer prefixes come first.
  pub IsDescending : List (String × A) → Type 0
  IsDescending [] = Unit
  IsDescending (m ∷ ms) = Below (byte_len m.0) ms × IsDescending ms

  Below-le : (n k : ℕ) (ms : List (String × A)) → n ≤ k → Below n ms → Below k ms
  Below-le n k [] h b = tt
  Below-le n k (m ∷ ms) h b = ground (arith, Below-le n k ms h)

  Below-insert_mount :
      (n : ℕ) (m : String × A) (ms : List (String × A))
      → byte_len m.0 ≤ n
      → Below n ms
      → Below n (insert_mount m ms)
  unfolding insert_mount
  Below-insert_mount n m [] h b = (h, tt)
  Below-insert_mount n m (k ∷ ms) h b = ground (arith, Below-insert_mount n m ms h)

  insert_mount-IsDescending :
      (m : String × A) (ms : List (String × A)) → IsDescending ms → IsDescending (insert_mount m ms)
  unfolding insert_mount IsDescending
  insert_mount-IsDescending m [] d = (tt, tt)
  insert_mount-IsDescending m (k ∷ ms) d = ground (
    arith,
    insert_mount-IsDescending m ms,
    Below-insert_mount (byte_len k.0) m ms,
    Below-le (byte_len k.0) (byte_len m.0) ms,
  )

  pub sort_mounts-IsDescending : (ms : List (String × A)) → IsDescending (sort_mounts ms)
  unfolding sort_mounts IsDescending
  sort_mounts-IsDescending [] = tt
  sort_mounts-IsDescending (m ∷ ms) =
      insert_mount-IsDescending m (sort_mounts ms) (sort_mounts-IsDescending ms)

  pub add_mount-IsDescending :
      (prefix : String) (a : A) (ms : List (String × A)) → IsDescending (add_mount prefix a ms)
  unfolding add_mount
  add_mount-IsDescending prefix a ms =
      sort_mounts-IsDescending
        (keep (λ (m : String × A). not (m.0 == trim_end prefix)) ms ++ (trim_end prefix, a) ∷ [])

  -- A mount that covers the path is no longer than `n`.
  abbrev pub NoLonger : String → ℕ → List (String × A) → Type 0
  NoLonger path n ms = All (λ (m : String × A). covers m.0 path ≡ true → byte_len m.0 ≤ n) ms

  NoLonger-Below :
      (path : String) (n : ℕ) (ms : List (String × A)) → Below n ms → NoLonger path n ms
  NoLonger-Below path n [] b = tt
  NoLonger-Below path n (m ∷ ms) (h, b) = (λ _. h, NoLonger-Below path n ms b)

  pub find_mount-longest :
      (path : String) (ms : List (String × A)) (p : String) (a : A)
      → IsDescending ms
      → find_mount path ms ≡ some (p, a)
      → (covers p path ≡ true) × NoLonger path (byte_len p) ms
  unfolding find_mount IsDescending
  find_mount-longest path [] p a d h = absurd (ground arith)
  find_mount-longest path ((q, b) ∷ ms) p a (low, d) h = elim (Bool-cases (covers q path)) [
    | inl t ↦
        let same : q ≡ p = ground arith in
        (ground arith, (λ _. ground arith, NoLonger-Below path (byte_len p) ms (ground arith)))
    | inr f ↦
        let (c, r) = find_mount-longest path ms p a d (ground arith) in
        (c, (λ k. absurd (ground arith), r))
  ]

  Below-modify :
      (n : ℕ) (k : String) (f : A → A) (ms : List (String × A))
      → Below n ms
      → Below n (modify k f ms)
  unfolding modify
  Below-modify n k f [] b = tt
  Below-modify n k f ((q, a) ∷ ms) b = ground (arith, Below-modify n k f ms)

  pub modify-IsDescending :
      (k : String) (f : A → A) (ms : List (String × A))
      → IsDescending ms
      → IsDescending (modify k f ms)
  unfolding modify IsDescending
  modify-IsDescending k f [] d = tt
  modify-IsDescending k f ((q, a) ∷ ms) d =
      ground (arith, modify-IsDescending k f ms, Below-modify (byte_len q) k f ms)

module _ (outside : Outside) where
  -- What can happen to a router.
  pub data Step : VfsRouter outside → VfsRouter outside → Type 0 where
    mounts_provider :
        (prefix : String) (p : outside.Provider) (r : VfsRouter outside)
        → Step r (mount outside prefix p r)
    mounts_memory :
        (prefix : String) (fs : MemFs) (r : VfsRouter outside)
        → Step r (mount_memfs outside prefix fs r)
    sets_registry :
        (registry : outside.Registry) (r : VfsRouter outside)
        → Step r (set_tool_registry outside registry r)
    sets_store :
        (store : outside.PermissionsStore) (r : VfsRouter outside)
        → Step r (set_permissions_store outside store r)
    clones : (r : VfsRouter outside) → Step r (clone_router outside r)
    sets_caller :
        (caller : Option VfsCallerContext) (r : VfsRouter outside)
        → Step r (set_caller outside caller r)
    writes :
        (path : String) (content : List ℕ) (r : VfsRouter outside)
        → Step r (write outside path content r).1
    deletes : (path : String) (r : VfsRouter outside) → Step r (delete outside path r).1
    reads : (path : String) (r : VfsRouter outside) → Step r (read outside path r).1

  pub data Reach : VfsRouter outside → Type 0 where
    starts : Reach (new_router outside)
    steps : {r s : VfsRouter outside} → Reach r → Step r s → Reach s

  pub IsSorted : VfsRouter outside → Type 0
  IsSorted r = IsDescending r.mounts × IsDescending r.mem_mounts

  route_effect-IsSorted :
      (f : outside.Provider → String → Result AvixError (Unit {0}) × outside.Provider)
      (g : MemFs → Result AvixError (Unit {0}) × MemFs) (path : String) (r : VfsRouter outside)
      → IsSorted r
      → IsSorted (route_effect outside f g path r).1
  unfolding route_effect IsSorted
  route_effect-IsSorted f g path r (a, b) = elim (Option-cases (find_mount path r.mounts)) [
    | inr ((p, x), e) ↦ rw (e, route_effect) (modify-IsDescending p _ r.mounts a, b)
    | inl e ↦ elim (Option-cases (find_mount path r.mem_mounts)) [
      | inr ((p, x), k) ↦ rw (e, k, route_effect) (a, modify-IsDescending p _ r.mem_mounts b)
      | inl k ↦ rw (e, k, route_effect) (a, b)
    ]
  ]

  guarded_effect-IsSorted :
      (gate : Result AvixError (Unit {0}))
      (effect : Result AvixError (Unit {0}) × VfsRouter outside) (r : VfsRouter outside)
      → IsSorted r
      → IsSorted effect.1
      → IsSorted (guarded_effect outside gate effect r).1
  guarded_effect-IsSorted (ok u) effect r h k = k
  guarded_effect-IsSorted (err e) effect r h k = h

  fill_mounted-IsSorted :
      (fs : Option MemFs) (registry : Option outside.Registry) (r : VfsRouter outside)
      → IsSorted r
      → IsSorted (fill_mounted outside fs registry r)
  unfolding IsSorted
  fill_mounted-IsSorted none registry r h = h
  fill_mounted-IsSorted (some fs) none r h = h
  fill_mounted-IsSorted (some fs) (some registry) r (a, b) =
      elim (Bool-cases (contains_key "/tools/index.yaml" fs)) [
        | inl t ↦ rw (t, fill_tools) (a, b)
        | inr f ↦
            rw (f, fill_tools)
              (a, modify-IsDescending "tools" (λ _. outside.populate registry fs) r.mem_mounts b)
      ]

  populate_tools-IsSorted :
      (path : String) (r : VfsRouter outside)
      → IsSorted r
      → IsSorted (populate_tools outside path r)
  populate_tools-IsSorted path r h = elim (Bool-cases (starts_with path "/tools")) [
    | inl t ↦
        rw (t, populate_tools)
          (fill_mounted-IsSorted (get "tools" r.mem_mounts) r.tool_registry r h)
    | inr f ↦ rw (f, populate_tools) h
  ]

  write-IsSorted :
      (path : String) (content : List ℕ) (r : VfsRouter outside)
      → IsSorted r
      → IsSorted (write outside path content r).1
  unfolding write
  write-IsSorted path content r h =
      guarded_effect-IsSorted (guard_caller outside "write" (vfs_can_write (for_path path)) path r)
        (route_effect outside (λ p inner. outside.write p inner content)
          (λ fs. write_file path content fs) path r)
        r h
        (route_effect-IsSorted (λ p inner. outside.write p inner content)
          (λ fs. write_file path content fs) path r h)

  delete-IsSorted :
      (path : String) (r : VfsRouter outside) → IsSorted r → IsSorted (delete outside path r).1
  unfolding delete
  delete-IsSorted path r h =
      guarded_effect-IsSorted (guard_caller outside "delete" (vfs_can_write (for_path path)) path r)
        (route_effect outside outside.delete (λ fs. delete_file path fs) path r) r h
        (route_effect-IsSorted outside.delete (λ fs. delete_file path fs) path r h)

  read-IsSorted :
      (path : String) (r : VfsRouter outside) → IsSorted r → IsSorted (read outside path r).1
  unfolding read
  read-IsSorted path r h =
      elim (Result-cases (guard_caller outside "read" (vfs_can_read (for_path path)) path r)) [
        | inl (u, e) ↦ rw (e, read_guarded) (populate_tools-IsSorted path r h)
        | inr (x, e) ↦ rw (e, read_guarded) h
      ]

  -- Every step keeps both lists of mounts sorted.
  pub Step-IsSorted : {r s : VfsRouter outside} → Step r s → IsSorted r → IsSorted s
  unfolding IsSorted IsDescending
  Step-IsSorted (mounts_provider prefix p r) (a, b) = (add_mount-IsDescending prefix p r.mounts, b)
  Step-IsSorted (mounts_memory prefix fs r) (a, b) =
      (a, add_mount-IsDescending prefix fs r.mem_mounts)
  Step-IsSorted (sets_registry registry r) h = h
  Step-IsSorted (sets_store store r) h = h
  Step-IsSorted (clones r) h = (tt, tt)
  Step-IsSorted (sets_caller caller r) h = h
  Step-IsSorted (writes path content r) h = write-IsSorted path content r h
  Step-IsSorted (deletes path r) h = delete-IsSorted path r h
  Step-IsSorted (reads path r) h = read-IsSorted path r h

  reached-IsSorted : {r : VfsRouter outside} → Reach r → IsSorted r
  unfolding IsSorted IsDescending
  reached-IsSorted starts = (tt, tt)
  reached-IsSorted (steps h s) = Step-IsSorted s (reached-IsSorted h)

  -- Whatever was mounted, in whatever order, and whatever was done since, a path that is routed to a
  -- provider is routed to a mount that covers it, and no other mount of a provider that covers it has a
  -- longer prefix.
  pub routes_to_longest :
      {r : VfsRouter outside} (path p : String) (a : outside.Provider)
      → Reach r
      → find_mount path r.mounts ≡ some (p, a)
      → (covers p path ≡ true) × NoLonger path (byte_len p) r.mounts
  unfolding IsSorted
  routes_to_longest {r} path p a h e = find_mount-longest path r.mounts p a (reached-IsSorted h).0 e

  -- The same of the files in memory
  pub routes_to_longest_in_memory :
      {r : VfsRouter outside} (path p : String) (fs : MemFs)
      → Reach r
      → find_mount path r.mem_mounts ≡ some (p, fs)
      → (covers p path ≡ true) × NoLonger path (byte_len p) r.mem_mounts
  unfolding IsSorted
  routes_to_longest_in_memory {r} path p fs h e =
      find_mount-longest path r.mem_mounts p fs (reached-IsSorted h).1 e

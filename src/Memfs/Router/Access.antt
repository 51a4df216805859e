-- ===== src/Memfs/Router/Access.antt =====
-- crates/avix-core/src/memfs/router.rs: what is read after a write, and what a refused call does.
use avix.Base.{
  ℕ, String, string_eq, true, false, ◌||◌, ◌==◌, contains, starts_with, List, [], ◌∷◌, Option, some,
  Option-cases, ◌≡◌, inl, inr, refl, sym, ap, ◌∙◌, arith,
}
use avix.Base.Dict.{modify, get-insert_self}
use avix.Errors.{AvixError, Result, err, ok}
use avix.Memfs.Context.{VfsCallerContext, for_path, vfs_can_read, vfs_can_write}
use avix.Memfs.Context.Access.{permissions_lem}
use avix.Memfs.Vfs.{MemFs, write_file, read_file}
use avix.Memfs.LocalProvider.{FileSystem, ReadsBack, read_local-write_local}
use avix.Memfs.Host.{host}
use avix.Memfs.Router.Registry.{absolute-uncovered, read_populated}
use avix.Memfs.Router.{
  find_mount, Outside, VfsRouter, route_effect, guard_caller, guarded_effect, inner_path, write,
  read_routed, read_guarded, read,
}

module _ {A : Type 0} where
  find_mount-modify :
      (path k : String) (f : A → A) (ms : List (String × A)) (a : A)
      → find_mount path ms ≡ some (k, a)
      → find_mount path (modify k f ms) ≡ some (k, f a)
  unfolding find_mount modify
  find_mount-modify path k f [] a h = absurd (ground arith)
  find_mount-modify path k f ((q, b) ∷ ms) a h =
      ground (arith, find_mount-modify path k f ms a, string_eq.equal_iff q k)

read_file-write_file :
    (path : String) (content : List ℕ) (fs : MemFs)
    → read_file path (write_file path content fs).1 ≡ ok content
unfolding read_file write_file
read_file-write_file path content fs = rw (read_file, get-insert_self path content fs) refl

module _ (outside : Outside) where
  guard_read :
      (path : String) (r : VfsRouter outside)
      → guard_caller outside "read" (vfs_can_read (for_path path)) path r ≡ ok tt
  guard_read path r = elim (Option-cases r.caller) [
    | inl e ↦ rw (e, guard_caller) refl
    | inr (c, e) ↦ rw (e, guard_caller, (permissions_lem path c).0) refl
  ]

  -- What a provider has written it reads.
  abbrev pub IsStore : Type 0
  IsStore =
      (p : outside.Provider) (inner : String) (content : List ℕ)
      → (outside.write p inner content).0 ≡ ok tt
      → outside.read (outside.write p inner content).1 inner ≡ ok content

  abbrev written :
      String → List ℕ → VfsRouter outside → Result AvixError (Unit {0}) × VfsRouter outside
  written path content r =
      route_effect outside (λ p inner. outside.write p inner content)
        (λ fs. write_file path content fs) path r

  written-read :
      (store : IsStore) (path : String) (content : List ℕ) (r : VfsRouter outside)
      → (written path content r).0 ≡ ok tt
      → read_routed outside path (written path content r).1 ≡ ok content
  unfolding route_effect read_routed
  written-read store path content r k = elim (Option-cases (find_mount path r.mounts)) [
    | inr ((p, x), e) ↦
        let after = (outside.write x (inner_path outside p path) content).1 in
        let good : (outside.write x (inner_path outside p path) content).0 ≡ ok tt = ground arith in
        rw (e, route_effect)
          (rw (read_routed, find_mount-modify path p (λ _. after) r.mounts x e)
            (store x (inner_path outside p path) content good))
    | inl e ↦ elim (Option-cases (find_mount path r.mem_mounts)) [
      | inr ((p, fs), l) ↦
          let after = (write_file path content fs).1 in
          rw (e, l, route_effect)
            (rw (read_routed, e, find_mount-modify path p (λ _. after) r.mem_mounts fs l)
              (read_file-write_file path content fs))
      | inl l ↦
          rw (e, l, route_effect)
            (rw (read_routed, e, l) (read_file-write_file path content r.default))
    ]
  ]

  guarded_ok :
      (gate : Result AvixError (Unit {0}))
      (effect : Result AvixError (Unit {0}) × VfsRouter outside) (r : VfsRouter outside)
      → (guarded_effect outside gate effect r).0 ≡ ok tt
      → guarded_effect outside gate effect r ≡ effect
  guarded_ok (ok u) effect r h = refl
  guarded_ok (err e) effect r h = absurd (ground arith)

  read_absolute :
      (path : String) (r : VfsRouter outside)
      → starts_with path "/" ≡ true
      → (read outside path r).0 ≡ read_routed outside path r
  unfolding read
  read_absolute path r h =
      rw (guard_read path r, read_guarded)
        (read_populated outside path r (absolute-uncovered path h))

  stored_read-write :
      (store : IsStore) (path : String) (content : List ℕ) (r : VfsRouter outside)
      → starts_with path "/" ≡ true
      → (write outside path content r).0 ≡ ok tt
      → (read outside path (write outside path content r).1).0 ≡ ok content
  unfolding write
  stored_read-write store path content r h k =
      let gate = guard_caller outside "write" (vfs_can_write (for_path path)) path r in
      let same = guarded_ok gate (written path content r) r k in
      let good = ap (λ (p : Result AvixError (Unit {0}) × VfsRouter outside). p.0) (sym same) ∙ k in
      rw same
        (read_absolute path (written path content r).1 h ∙ written-read store path content r good)

  -- A caller who may not write changes nothing: both operations return an error and the router as it was.
  pub denied_changes_nothing :
      (path : String) (content : List ℕ) (r : VfsRouter outside) (caller : VfsCallerContext)
      → r.caller ≡ some caller
      → (caller.is_admin || caller.username == "rwx" || contains caller.crews "rw-") ≡ false
      → (e : AvixError) × (write outside path content r ≡ (err e, r))
  unfolding write
  denied_changes_nothing path content r caller h k =
      rw (h, guard_caller, (permissions_lem path caller).1, k) (_, refl)

-- What a write of an absolute path that succeeds has written, the next read of the path returns, whoever the
-- caller is, under /secrets/ as anywhere, and wherever the path is routed (to a directory of the host, to a memory that is mounted, or to the
-- default), when the host's file system reads what it has written.
pub read-write :
    {Value : Type 0} (fs : FileSystem) (field : Value → String → Option String)
    (to_yaml : List String → String) (utf8 : String → List ℕ) (Store : Type 0) (path : String)
    (content : List ℕ) (r : VfsRouter (host fs field to_yaml utf8 Store))
    → ReadsBack fs
    → starts_with path "/" ≡ true
    → (write (host fs field to_yaml utf8 Store) path content r).0 ≡ ok tt
    → (read
        (host fs field to_yaml utf8 Store)
        path
        (write (host fs field to_yaml utf8 Store) path content r).1).0
      ≡ ok content
read-write fs field to_yaml utf8 Store path content r back =
    stored_read-write (host fs field to_yaml utf8 Store)
      (λ p inner c. read_local-write_local fs p inner c back) path content r

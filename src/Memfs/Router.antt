-- ===== src/Memfs/Router.antt =====
-- crates/avix-core/src/memfs/router.rs: the mounts and the routing of paths to them. Providers on disk
-- are a type with their operations, and so are the tool registry that fills the directory of
-- tools and the store of permissions, which the router only keeps; Memfs/Host gives those of the program.
pub mod Longest
pub mod Access
pub mod Registry
use avix.Base.{
  ℕ, String, Bool, true, false, not, ◌&&◌, ◌||◌, ◌==◌, string_eq, if◌then◌else◌, leb, starts_with,
  ◌+++◌, List, [], ◌∷◌, ◌++◌, keep, Option, none, some, map_option,
}
use avix.Base.Dict.{Dict, get, modify, contains_key}
use avix.Errors.{AvixError, capability_denied, config_parse, display, Result, ok, err, ◌>>=◌, ◌>>◌}
use avix.Memfs.Path.{parse_path, trim_end, trim_start, byte_len, after_prefix}
use avix.Memfs.Vfs.{MemFs, write_file, read_file, delete_file, file_exists, list_dir}
use avix.Memfs.Context.{
  VfsCallerContext, for_path, effective_for, vfs_can_read, vfs_can_write, vfs_can_execute,
}

-- `LocalProvider`, a directory of the host, and `ToolRegistry` as the router uses it.
pub record Outside : Type 1 where
  pub Provider : Type 0
  pub read : Provider → String → Result AvixError (List ℕ)
  pub write : Provider → String → List ℕ → Result AvixError (Unit {0}) × Provider
  pub delete : Provider → String → Result AvixError (Unit {0}) × Provider
  pub exists : Provider → String → Bool
  pub list : Provider → String → Result AvixError (List String)
  pub Registry : Type 0
  pub populate : Registry → MemFs → MemFs
  pub PermissionsStore : Type 0

-- `path == prefix || path.starts_with("{prefix}/")`
unfoldable pub covers : String → String → Bool
covers prefix path = path == prefix || starts_with path (prefix +++ "/")

module _ {A : Type 0} where
  -- `sort_by(|(a, _), (b, _)| b.len().cmp(&a.len()))`, which keeps the order of equals
  unfoldable pub insert_mount : String × A → List (String × A) → List (String × A)
  insert_mount m [] = m ∷ []
  insert_mount m (n ∷ ns) =
      let rest = insert_mount m ns in
      if leb (byte_len n.0) (byte_len m.0) then m ∷ n ∷ ns else n ∷ rest

  unfoldable pub sort_mounts : List (String × A) → List (String × A)
  unfolding insert_mount
  sort_mounts [] = []
  sort_mounts (m ∷ ms) = insert_mount m (sort_mounts ms)

  unfoldable pub add_mount : String → A → List (String × A) → List (String × A)
  unfolding sort_mounts
  add_mount prefix a mounts =
      let prefix = trim_end prefix in
      sort_mounts (keep (λ m. not (m.0 == prefix)) mounts ++ (prefix, a) ∷ [])

  -- The first mount whose prefix covers the path.
  unfoldable pub find_mount : String → List (String × A) → Option (String × A)
  find_mount path [] = none
  find_mount path ((prefix, a) ∷ rest) =
      let later = find_mount path rest in if covers prefix path then some (prefix, a) else later

module _ (outside : Outside) where
  pub record VfsRouter : Type 0 where
    pub mounts : Dict String outside.Provider
    pub mem_mounts : Dict String MemFs
    pub tool_registry : Option outside.Registry
    pub permissions_store : Option outside.PermissionsStore
    pub caller : Option VfsCallerContext
    pub default : MemFs

  abbrev pub new_router : VfsRouter
  new_router = record {
    mounts = [];
    mem_mounts = [];
    tool_registry = none;
    permissions_store = none;
    caller = none;
    default = [];
  }

  abbrev pub set_tool_registry : outside.Registry → VfsRouter → VfsRouter
  set_tool_registry registry r = record r { tool_registry = some registry }

  abbrev pub set_permissions_store : outside.PermissionsStore → VfsRouter → VfsRouter
  set_permissions_store store r = record r { permissions_store = some store }

  -- A clone has nothing of the router that it is made of.
  abbrev pub clone_router : VfsRouter → VfsRouter
  clone_router r = new_router

  abbrev pub set_caller : Option VfsCallerContext → VfsRouter → VfsRouter
  set_caller caller r = record r { caller = caller }

  abbrev pub mount : String → outside.Provider → VfsRouter → VfsRouter
  mount prefix provider r = record r { mounts = add_mount prefix provider r.mounts }

  abbrev pub mount_memfs : String → MemFs → VfsRouter → VfsRouter
  mount_memfs prefix fs r = record r { mem_mounts = add_mount prefix fs r.mem_mounts }

  unfoldable pub check_access : String → String → VfsRouter → Result AvixError (Unit {0})
  check_access path required r = elim r.caller [
    | none ↦ err (capability_denied "no caller context")
    | some caller ↦
        let perms = for_path path in
        if required == "r" && not (vfs_can_read perms caller)
        then err (capability_denied ("no read permission on " +++ path))
        else if required == "w" && not (vfs_can_write perms caller)
        then err (capability_denied ("no write permission on " +++ path))
        else if required == "x" && not (vfs_can_execute perms caller)
        then err (capability_denied ("no execute permission on " +++ path))
        else ok tt
  ]

  -- The guard_caller of an operation: a caller, where one is set, must have the permission.
  abbrev pub guard_caller :
      String → (VfsCallerContext → Bool) → String → VfsRouter → Result AvixError (Unit {0})
  guard_caller verb allowed path r = elim r.caller [
    | none ↦ ok tt
    | some caller ↦
        if allowed caller
        then ok tt
        else err (
            capability_denied (
              "permission denied: cannot "
              +++ verb
              +++ " "
              +++ path
              +++ " (effective: "
              +++ effective_for (for_path path) caller
              +++ ")"))
  ]

  -- The path inside a provider.
  abbrev pub inner_path : String → String → String
  inner_path prefix path = trim_start (after_prefix prefix path)

  abbrev pub Effect : Type 0
  Effect = Result AvixError (Unit {0}) × VfsRouter

  -- An operation that changes files goes to the provider that covers the path, else to the memory
  -- that covers it, else to the default.
  unfoldable pub route_effect :
      (outside.Provider → String → Result AvixError (Unit {0}) × outside.Provider)
      → (MemFs → Result AvixError (Unit {0}) × MemFs)
      → String
      → VfsRouter
      → Effect
  route_effect on_provider on_memory path r = elim (find_mount path r.mounts) [
    | some (prefix, provider) ↦
        let (result, provider) = on_provider provider (inner_path prefix path) in
        (result, record r { mounts = modify prefix (λ _. provider) r.mounts })
    | none ↦ elim (find_mount path r.mem_mounts) [
      | some (prefix, fs) ↦
          let (result, fs) = on_memory fs in
          (result, record r { mem_mounts = modify prefix (λ _. fs) r.mem_mounts })
      | none ↦ let (result, fs) = on_memory r.default in (result, record r { default = fs })
    ]
  ]

  abbrev pub guarded_effect : Result AvixError (Unit {0}) → Effect → VfsRouter → Effect
  guarded_effect (err e) effect r = (err e, r)
  guarded_effect (ok _) effect r = effect

  unfoldable pub write : String → List ℕ → VfsRouter → Effect
  unfolding route_effect
  write path content r =
      guarded_effect (guard_caller "write" (vfs_can_write (for_path path)) path r)
        (route_effect (λ p inner. outside.write p inner content) (λ fs. write_file path content fs)
          path r)
        r

  unfoldable pub delete : String → VfsRouter → Effect
  unfolding route_effect
  delete path r =
      guarded_effect (guard_caller "delete" (vfs_can_write (for_path path)) path r)
        (route_effect outside.delete (λ fs. delete_file path fs) path r) r

  abbrev pub fill_tools : MemFs → outside.Registry → VfsRouter → VfsRouter
  fill_tools fs registry r =
      if contains_key "/tools/index.yaml" fs
      then r
      else record r { mem_mounts = modify "tools" (λ _. outside.populate registry fs) r.mem_mounts }

  -- The directory of tools, where it is mounted, is filled from the registry.
  abbrev pub fill_mounted : Option MemFs → Option outside.Registry → VfsRouter → VfsRouter
  fill_mounted none registry r = r
  fill_mounted (some fs) none r = r
  fill_mounted (some fs) (some registry) r = fill_tools fs registry r

  abbrev pub populate_tools : String → VfsRouter → VfsRouter
  populate_tools path r =
      if starts_with path "/tools"
      then fill_mounted (get "tools" r.mem_mounts) r.tool_registry r
      else r

  unfoldable pub read_routed : String → VfsRouter → Result AvixError (List ℕ)
  read_routed path r = elim (find_mount path r.mounts) [
    | some (prefix, provider) ↦ outside.read provider (inner_path prefix path)
    | none ↦ elim (find_mount path r.mem_mounts) [
      | some (_, fs) ↦ read_file path fs
      | none ↦ read_file path r.default
    ]
  ]

  abbrev pub read_guarded :
      Result AvixError (Unit {0}) → String → VfsRouter → Result AvixError (List ℕ) × VfsRouter
  read_guarded (err e) path r = (err e, r)
  read_guarded (ok _) path r =
      let filled = populate_tools path r in (read_routed path filled, filled)

  unfoldable pub read : String → VfsRouter → Result AvixError (List ℕ) × VfsRouter
  unfolding read_routed
  read path r = read_guarded (guard_caller "read" (vfs_can_read (for_path path)) path r) path r

  abbrev pub exists_in_memory : String → Dict String MemFs → Bool
  exists_in_memory path [] = false
  exists_in_memory path ((prefix, fs) ∷ rest) =
      path == prefix
      || starts_with path (prefix +++ "/") && file_exists path fs
      || exists_in_memory path rest

  abbrev pub exists_on_disk : String → Dict String outside.Provider → Bool
  exists_on_disk path mounts = elim (find_mount path mounts) [
    | none ↦ false
    | some (prefix, provider) ↦ outside.exists provider (inner_path prefix path)
  ]

  unfoldable pub exists : String → VfsRouter → Bool
  exists path r =
      exists_on_disk path r.mounts
      || exists_in_memory path r.mem_mounts
      || file_exists path r.default

  unfoldable pub list : String → VfsRouter → Result AvixError (List String)
  list dir r = elim (find_mount dir r.mounts) [
    | some (prefix, provider) ↦ outside.list provider (inner_path prefix dir)
    | none ↦ elim (find_mount dir r.mem_mounts) [
      | some (_, fs) ↦ list_dir dir fs
      | none ↦ list_dir dir r.default
    ]
  ]

  unfoldable pub ensure_dir : String → VfsRouter → Effect
  unfolding exists write
  ensure_dir path r = elim (parse_path (trim_end path +++ "/.keep")) [
    | err e ↦ (err (config_parse (display e)), r)
    | ok keep_path ↦
        if exists keep_path r
        then (ok tt, r)
        else write keep_path (46 ∷ 107 ∷ 101 ∷ 101 ∷ 112 ∷ []) r
  ]

-- ===== src/Memfs/Tests.antt =====
-- Tests and witnesses of the files and mounts. A provider is a dictionary here.
use avix.Base.{
  ℕ, String, string_eq, true, false, ◌||◌, ◌==◌, contains, List, [], ◌∷◌, none, Option, some, ◌≡◌,
  refl, subst, ap, arith,
}
use avix.Base.Dict.{Dict, get, insert, remove, get-insert_self}
use avix.Errors.{io, Result, ok, err}
use avix.Memfs.Path.{
  parent, file_name, byte_len, trim_end, after_prefix, rsplit_slash, trim_start, first_component,
}
use avix.Memfs.Vfs.{list_dir, components_under}
use avix.Memfs.Context.{
  VfsCallerContext, from_user_info, for_path, vfs_can_read, vfs_can_write, vfs_can_execute,
}
use avix.Memfs.Context.Access.{permissions_lem}
use avix.Memfs.LocalProvider.{
  FileSystem, ReadsBack, LocalProvider, resolve_path, parent_dir, write_local,
}
use avix.Memfs.Host.{host}
use avix.Memfs.Router.{
  covers, sort_mounts, insert_mount, add_mount, find_mount, Outside, VfsRouter, new_router, mount,
  mount_memfs, set_tool_registry, route_effect, write, read,
}
use avix.Memfs.Router.Longest.{NoLonger, Reach, starts, steps, mounts_provider, routes_to_longest}
use avix.Memfs.Router.Access.{read-write}
use avix.Memfs.Router.Registry.{read-set_tool_registry}
use avix.ToolRegistry.Registry.{ToolRegistry, new_entry, add_entry, empty}
use avix.Types.Tool.{available, everyone}
use avix.Memfs.Tools.{dashed, lines}

abbrev found_file : Option (List ℕ) → Result String (List ℕ)
found_file none = err "no such file"
found_file (some content) = ok content

-- A disk is a dictionary of files here; directories are not looked at.
abbrev simple : FileSystem
simple = record {
  Disk = Dict String (List ℕ);
  create_dir_all = λ path d. ok d;
  canonicalize = λ path d. ok path;
  read = λ path d. found_file (get path d);
  write = λ path content d. ok (insert path content d);
  remove_file = λ path d. ok (remove path d);
  is_there = λ path d. false;
  read_dir = λ path d. ok [];
}

simple-ReadsBack : ReadsBack simple
simple-ReadsBack path content d d' h =
    subst (λ e. simple.read path e ≡ ok content) {x = insert path content d} {y = d'}
      (ground (arith, h)) (ap found_file (get-insert_self path content d))

-- Of a tool's descriptor, a number here, no field is read.
abbrev no_field : ℕ → String → Option String
no_field v key = none

abbrev no_bytes : String → List ℕ
no_bytes s = []

abbrev names_text : List String → String
names_text names = ""

abbrev disks : Outside
disks = host simple no_field names_text no_bytes Unit

abbrev reader_registry : ToolRegistry ℕ
reader_registry = add_entry (new_entry "fs/read" "fs" available everyone 0) empty

abbrev tools_mounted : VfsRouter disks
tools_mounted = mount_memfs disks "/tools" [] (new_router disks)

read-set_tool_registry_example :
    (read disks "/tools/index.yaml" (set_tool_registry disks reader_registry tools_mounted)).0
    ≡ (read disks "/tools/index.yaml" tools_mounted).0
read-set_tool_registry_example =
    read-set_tool_registry disks "/tools/index.yaml" reader_registry tools_mounted refl

abbrev users : LocalProvider simple
users = record { root = "/srv/users"; disk = [] }

abbrev alice : LocalProvider simple
alice = record { root = "/srv/alice"; disk = [] }

-- The longer prefix is mounted first.
abbrev mounted : VfsRouter disks
mounted = mount disks "/users/alice/" alice (mount disks "/users" users (new_router disks))

mounted-reach : Reach disks mounted
mounted-reach =
    steps (steps starts (mounts_provider "/users" users (new_router disks)))
      (mounts_provider "/users/alice/" alice (mount disks "/users" users (new_router disks)))

routed_to_alice : find_mount "/users/alice/notes" mounted.mounts ≡ some ("/users/alice", alice)
unfolding find_mount covers add_mount sort_mounts insert_mount byte_len trim_end
routed_to_alice = refl

read-write_example :
    (read disks "/users/alice/notes" (write disks "/users/alice/notes" (104 ∷ []) mounted).1).0
    ≡ ok (104 ∷ [])
unfolding write route_effect get find_mount covers add_mount sort_mounts insert_mount byte_len
    trim_end write_local after_prefix
read-write_example =
    read-write simple no_field names_text no_bytes Unit "/users/alice/notes" (104 ∷ []) mounted
      simple-ReadsBack refl refl

routes_to_longest_example :
    (covers "/users/alice" "/users/alice/notes" ≡ true)
    × NoLonger "/users/alice/notes" (byte_len "/users/alice") mounted.mounts
routes_to_longest_example =
    routes_to_longest disks "/users/alice/notes" "/users/alice" alice mounted-reach routed_to_alice

abbrev rwx_user : VfsCallerContext
rwx_user = from_user_info "rwx" [] false

permissions_lem_example :
    (vfs_can_read (for_path "/users/alice/notes") rwx_user ≡ true)
    × (vfs_can_write (for_path "/users/alice/notes") rwx_user
        ≡ (rwx_user.is_admin || rwx_user.username == "rwx" || contains rwx_user.crews "rw-"))
    × (vfs_can_execute (for_path "/users/alice/notes") rwx_user
        ≡ (rwx_user.is_admin || rwx_user.username == "rwx"))
permissions_lem_example = permissions_lem "/users/alice/notes" rwx_user

parts : (parent "/users/alice" ≡ some "/users") × (file_name "/users/alice" ≡ some "alice")
unfolding parent file_name rsplit_slash
parts = (refl, refl)

listed :
    list_dir "/users/" (("/users/alice/notes", []) ∷ ("/etc/hosts", []) ∷ []) ≡ ok ("alice" ∷ [])
unfolding list_dir components_under trim_end after_prefix first_component
listed = refl

described :
    (dashed "fs/read" ≡ "fs-read")
    × (lines "one\r\ntwo\n\nthree\n" ≡ "one" ∷ "two" ∷ "" ∷ "three" ∷ [])
unfolding dashed lines
described = (refl, refl)

resolved_paths :
    (resolve_path "/srv/alice" "/notes/a" ≡ ok "/srv/alice/notes/a")
    × (parent_dir "/srv/alice/notes/a" ≡ some "/srv/alice/notes")
    × (resolve_path "/srv/alice" "../bob" ≡ err (io "path traversal rejected: '../bob'"))
unfolding resolve_path parent_dir trim_start trim_end rsplit_slash
resolved_paths = (refl, refl, refl)

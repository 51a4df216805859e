-- ===== src/Memfs/Host.antt =====
-- crates/avix-core/src/memfs: a router with providers on the disk of the host and the tools of the registry.
-- `field`, `to_yaml` and `utf8` are those of Memfs/Tools, `Store` is the store of permissions.
use avix.Base.{ℕ, String, List, Option}
use avix.ToolRegistry.Registry.{ToolRegistry}
use avix.Memfs.Tools.{populate_tools_memfs}
use avix.Memfs.LocalProvider.{
  FileSystem, LocalProvider, read_local, write_local, delete_local, exists_local, list_local,
}
use avix.Memfs.Router.{Outside}

abbrev pub host :
    {Value : Type 0}
    → FileSystem
    → (Value → String → Option String)
    → (List String → String)
    → (String → List ℕ)
    → Type 0
    → Outside
host {Value} fs field to_yaml utf8 Store = record {
  Provider = LocalProvider fs;
  read = read_local fs;
  write = write_local fs;
  delete = delete_local fs;
  exists = exists_local fs;
  list = list_local fs;
  Registry = ToolRegistry Value;
  populate = populate_tools_memfs field to_yaml utf8;
  PermissionsStore = Store;
}

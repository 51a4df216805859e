-- ===== src/ToolRegistry/Tests.antt =====
-- Tests and witnesses of the tool registry.
use avix.Base.{none, String, false, ℕ, true, ◌≡◌, ◌↔◌, refl, [], ◌∷◌, some, string_eq, nat_eq}
use avix.Base.Dict.{modify, get, insert}
use avix.Errors.{Result, ok}
use avix.Types.Tool.{available, everyone, parse}
use avix.ToolRegistry.Registry.{
  remove_tools, remove_entries, mark_unavailable, semaphore_of, is_drained, ToolEntry, ToolRecord,
  ToolRegistry, new_entry, empty, add, add_entry, add_entries, send, acquire, take_permit,
}
use avix.ToolRegistry.Scanner.{
  ToolDescriptor, default_status, any, ends_with, File, scan_files, scan, entry_of, entries_of,
  scan_as_entries,
}
use avix.ToolRegistry.Registry.Drain.{start, next, adds, acquires, is_drained_iff}

-- The descriptor of a tool is a number here.
abbrev reader : ToolEntry ℕ
reader = new_entry "fs/read" "fs.svc" available everyone 1

abbrev writer : ToolEntry ℕ
writer = new_entry "fs/write" "fs.svc" available everyone 2

abbrev two_tools : ToolRegistry ℕ
two_tools = add (reader ∷ writer ∷ []) empty

abbrev without_reader : ToolRegistry ℕ
without_reader = elim (remove_tools ("fs/read" ∷ []) "bye" true two_tools) [
  | none ↦ two_tools
  | some reg ↦ reg
]

removes : remove_tools ("fs/read" ∷ []) "bye" true two_tools ≡ some without_reader
unfolding remove_tools mark_unavailable is_drained remove_entries add add_entries add_entry send
    empty get insert modify
removes = refl

abbrev reader_record : ToolRecord ℕ
reader_record = record { entry = reader; semaphore = 0 }

reader_found : get "fs/read" two_tools.inner ≡ some reader_record
unfolding add add_entries add_entry send empty get insert
reader_found = refl

reader_acquired : acquire "fs/read" two_tools ≡ some (ok 0, take_permit 0 two_tools)
unfolding add add_entries add_entry send empty get insert acquire
reader_acquired = refl

-- The reader is added again while the wait for its first record goes on.
is_drained_iff_example :
    (is_drained (semaphore_of "fs/read" two_tools) (add (reader ∷ []) (take_permit 0 two_tools))
      ≡ true)
    ↔ (◌≡◌ {A = ℕ} 1 0)
is_drained_iff_example =
    is_drained_iff "fs/read" two_tools reader_record
      (next
        (next (next start (adds (reader ∷ writer ∷ []) empty []))
          (acquires "fs/read" 0 two_tools (take_permit 0 two_tools) [] reader_acquired))
        (adds (reader ∷ []) (take_permit 0 two_tools) (0 ∷ [])))
      reader_found

-- The text of a file is the name of its tool here.
abbrev descriptor_named : String → Result String (ToolDescriptor ℕ)
descriptor_named name = ok (record {
  name = name;
  path = none;
  owner = some "ann";
  permissions = none;
  description = "";
  status = default_status;
  ipc = none;
  streaming = false;
  job = false;
  job_timeout = none;
  capabilities_required = [];
  input = 0;
  output = 0;
  visibility = any;
})

abbrev file : String → String → File
file name text = record { path = name; name = name; content = ok text }

scanned :
    scan_as_entries
      (λ d. 3)
      descriptor_named
      "notes.svc"
      (some (
        ok (
          ok (file "a.tool.yaml" "notes/read")
          ∷ ok (file "b.yaml" "notes/write")
          ∷ ok (file "c.tool.yaml" "notes__bad")
          ∷ [])))
    ≡ ok (
        record (new_entry "notes/read" "notes.svc" available everyone 3) {
          permissions = record { owner = "ann"; crew = ""; all = "r--" };
        }
        ∷ [])
unfolding scan_as_entries scan scan_files ends_with entries_of entry_of parse
scanned = refl

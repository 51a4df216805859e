-- ===== src/Memfs/Context/Access.antt =====
-- crates/avix-core/src/memfs/context.rs: whom the permissions of a path let in.
use avix.Base.{
  String, string_eq, Bool, true, false, ◌||◌, ◌==◌, if◌then◌else◌, has_text, contains, ◌≡◌, refl,
}
use avix.Memfs.Context.{
  VfsCallerContext, for_path, effective_for, vfs_can_read, vfs_can_write, vfs_can_execute,
}

abbrev letters : Bool → Bool → Bool → String
letters admin owner crew =
    if admin then "rwx" else if owner then "rwx" else if crew then "rw-" else "r--"

letters_read : (a b c : Bool) → has_text (letters a b c) "r" ≡ true
letters_read true b c = refl
letters_read false true c = refl
letters_read false false true = refl
letters_read false false false = refl

letters_write : (a b c : Bool) → has_text (letters a b c) "w" ≡ (a || b || c)
letters_write true b c = refl
letters_write false true c = refl
letters_write false false true = refl
letters_write false false false = refl

letters_execute : (a b c : Bool) → has_text (letters a b c) "x" ≡ (a || b)
letters_execute true b c = refl
letters_execute false true c = refl
letters_execute false false true = refl
letters_execute false false false = refl

-- Every caller may read every path, those under /secrets/ included. An administrator may write and execute
-- every path, those under /secrets/, /proc/ and /kernel/ included, and so may a user whose name is `rwx`; a
-- member of a crew named `rw-` may write every path. Nobody else may write.
pub permissions_lem :
    (path : String) (caller : VfsCallerContext)
    → (vfs_can_read (for_path path) caller ≡ true)
      × (vfs_can_write (for_path path) caller
          ≡ (caller.is_admin || caller.username == "rwx" || contains caller.crews "rw-"))
      × (vfs_can_execute (for_path path) caller ≡ (caller.is_admin || caller.username == "rwx"))
unfolding vfs_can_read vfs_can_write vfs_can_execute effective_for
permissions_lem path caller = (
  letters_read caller.is_admin (caller.username == "rwx") (contains caller.crews "rw-"),
  letters_write caller.is_admin (caller.username == "rwx") (contains caller.crews "rw-"),
  letters_execute caller.is_admin (caller.username == "rwx") (contains caller.crews "rw-"),
)

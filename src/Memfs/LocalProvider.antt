-- ===== src/Memfs/LocalProvider.antt =====
-- crates/avix-core/src/memfs/local_provider.rs. `FileSystem` is tokio::fs and std::fs on the host; an operation
-- that fails says why. Each provider has the part of the disk under its root, so what others do to the same
-- directory in between is left out.
use avix.Base.{
  ℕ, String, string_eq, nat_eq, Bool, false, ◌==◌, if◌then◌else◌, has_text, ◌+++◌, List, [], ◌∷◌,
  Option, none, some, map_option, ◌≡◌, refl, inl, inr, arith,
}
use avix.Errors.{AvixError, io, not_found, Result, ok, err, map_err, ◌>>=◌, Result-cases}
use avix.Memfs.Path.{trim_start, trim_end, rsplit_slash}

pub record FileSystem : Type 1 where
  pub Disk : Type 0
  pub create_dir_all : String → Disk → Result String Disk
  pub canonicalize : String → Disk → Result String String
  pub read : String → Disk → Result String (List ℕ)
  pub write : String → List ℕ → Disk → Result String Disk
  pub remove_file : String → Disk → Result String Disk
  pub is_there : String → Disk → Bool
  -- The entries, each with its name where that is UTF-8
  pub read_dir : String → Disk → Result String (List (Result String (Option String)))

-- `root.join(rel)`, where `rel` does not begin with a slash
abbrev pub join_path : String → String → String
join_path root rel = if root == "/" then root +++ rel else root +++ "/" +++ rel

-- `path.parent()` of an absolute path
abbrev pub or_root : String → String
or_root dir = if dir == "" then "/" else dir

unfoldable pub parent_dir : String → Option String
unfolding rsplit_slash trim_end
parent_dir path =
    map_option (λ (p : String × String). or_root (trim_end p.0)) (rsplit_slash (trim_end path))

unfoldable pub resolve_path : String → String → Result AvixError String
unfolding trim_start
resolve_path root rel =
    let rel = trim_start rel in
    if has_text rel ".."
    then err (io ("path traversal rejected: '" +++ rel +++ "'"))
    else ok (join_path root rel)

module _ (fs : FileSystem) where
  pub record LocalProvider : Type 0 where
    pub root : String
    pub disk : fs.Disk

  -- `new`, which makes the root where it is not there
  abbrev pub with_root : String → fs.Disk → Result AvixError LocalProvider
  with_root root disk =
      map_err (λ e. io ("canonicalize provider root: " +++ e)) (fs.canonicalize root disk)
      >>= λ path. ok (record { root = path; disk = disk })

  unfoldable pub new_provider : String → fs.Disk → Result AvixError LocalProvider
  new_provider root disk =
      if fs.is_there root disk
      then with_root root disk
      else (map_err (λ e. io ("create provider root: " +++ e)) (fs.create_dir_all root disk)
          >>= with_root root)

  unfoldable pub read_local : LocalProvider → String → Result AvixError (List ℕ)
  unfolding resolve_path
  read_local p rel = resolve_path p.root rel >>= λ path.
      map_err (λ e. not_found ("read " +++ rel +++ ": " +++ e)) (fs.read path p.disk)

  abbrev pub Changed : Type 0
  Changed = Result AvixError (Unit {0}) × LocalProvider

  -- The disk that is left: a step that fails leaves it as it was.
  abbrev pub changed : (String → AvixError) → LocalProvider → Result String fs.Disk → Changed
  changed why p (err e) = (err (why e), p)
  changed why p (ok disk) = (ok tt, record p { disk = disk })

  abbrev pub create_parent : Option String → fs.Disk → Result String fs.Disk
  create_parent none disk = ok disk
  create_parent (some dir) disk = fs.create_dir_all dir disk

  abbrev pub write_made : LocalProvider → String → String → List ℕ → Result String fs.Disk → Changed
  write_made p rel path content (err e) =
      (err (io ("create_dir_all for " +++ rel +++ ": " +++ e)), p)
  write_made p rel path content (ok disk) =
      changed (λ e. io ("write " +++ rel +++ ": " +++ e)) (record p { disk = disk })
        (fs.write path content disk)

  abbrev pub write_at : LocalProvider → String → List ℕ → Result AvixError String → Changed
  write_at p rel content (err e) = (err e, p)
  write_at p rel content (ok path) =
      write_made p rel path content (create_parent (parent_dir path) p.disk)

  unfoldable pub write_local : LocalProvider → String → List ℕ → Changed
  unfolding resolve_path parent_dir
  write_local p rel content = write_at p rel content (resolve_path p.root rel)

  abbrev pub delete_at : LocalProvider → String → Result AvixError String → Changed
  delete_at p rel (err e) = (err e, p)
  delete_at p rel (ok path) =
      changed (λ e. not_found ("delete " +++ rel +++ ": " +++ e)) p (fs.remove_file path p.disk)

  unfoldable pub delete_local : LocalProvider → String → Changed
  unfolding resolve_path
  delete_local p rel = delete_at p rel (resolve_path p.root rel)

  unfoldable pub exists_local : LocalProvider → String → Bool
  unfolding resolve_path
  exists_local p rel = elim (resolve_path p.root rel) [
    | ok path ↦ fs.is_there path p.disk
    | err _ ↦ false
  ]

  -- The names that are UTF-8; an entry that cannot be read ends the listing.
  abbrev pub utf8_names :
      String → List (Result String (Option String)) → Result AvixError (List String)
  utf8_names dir [] = ok []
  utf8_names dir (err e ∷ entries) = err (io ("read dir entry in " +++ dir +++ ": " +++ e))
  utf8_names dir (ok none ∷ entries) = utf8_names dir entries
  utf8_names dir (ok (some name) ∷ entries) = utf8_names dir entries >>= λ names. ok (name ∷ names)

  unfoldable pub list_local : LocalProvider → String → Result AvixError (List String)
  unfolding resolve_path
  list_local p dir = resolve_path p.root dir >>= λ path.
      map_err (λ e. not_found ("list " +++ dir +++ ": " +++ e)) (fs.read_dir path p.disk)
      >>= utf8_names dir

  -- What the host's file system does: a file that was written is read as it was written.
  abbrev pub ReadsBack : Type 0
  ReadsBack =
      (path : String) (content : List ℕ) (d d' : fs.Disk)
      → fs.write path content d ≡ ok d'
      → fs.read path d' ≡ ok content

  write_made_reads :
      (p : LocalProvider) (rel path : String) (content : List ℕ) (made : Result String fs.Disk)
      → ReadsBack
      → resolve_path p.root rel ≡ ok path
      → (write_made p rel path content made).0 ≡ ok tt
      → read_local (write_made p rel path content made).1 rel ≡ ok content
  unfolding read_local
  write_made_reads p rel path content (err e) back h k = absurd (ground (arith, k))
  write_made_reads p rel path content (ok disk) back h k =
      elim (Result-cases (fs.write path content disk)) [
        | inl (d, e) ↦ rw (e, changed) (rw (read_local, h, back path content disk d e) refl)
        | inr (x, e) ↦ absurd (ground (arith, e, k))
      ]

  -- What a provider has written it reads.
  pub read_local-write_local :
      (p : LocalProvider) (rel : String) (content : List ℕ)
      → ReadsBack
      → (write_local p rel content).0 ≡ ok tt
      → read_local (write_local p rel content).1 rel ≡ ok content
  unfolding write_local
  read_local-write_local p rel content back k = elim (Result-cases (resolve_path p.root rel)) [
    | inl (path, e) ↦
        rw (e, write_at)
          (write_made_reads p rel path content (create_parent (parent_dir path) p.disk) back e
            (ground (arith, e, k)))
    | inr (x, e) ↦ absurd (ground (arith, e, k))
  ]

-- ===== src/ToolRegistry/PermissionsStore.antt =====
-- crates/avix-core/src/tool_registry/permissions_store.rs: the permissions of tools in a database. redb is
-- the record of Base/Redb, of which `insert` is what `set` does from the opening of the table to the
-- commit, with what begins a transaction for writing and what lists the table apart; the parameters
-- `json` are serde_yaml.
use avix.Base.{String, ◌+++◌, List, [], ◌∷◌, Option, none, some, ◌≡◌, refl, inl, inr, arith}
use avix.Base.Redb.{Redb, Json, Saved, saved, delete_record, IsFaithful}
use avix.Errors.{AvixError, config_parse, Result, ok, err, ◌>>=◌, map_err, Result-cases}
use avix.ToolRegistry.Registry.{ToolPermissions}

abbrev pub parse_failure : String → String → AvixError
parse_failure what e = config_parse (what +++ e)

module _ (db : Redb) (begin_write : db.Database → Result String (Unit {0}))
    (entries : db.Database → Result String (List (String × String)))
    (yaml : Json ToolPermissions) where
  abbrev pub parsed_permissions : Option String → Result AvixError (Option ToolPermissions)
  parsed_permissions none = ok none
  parsed_permissions (some text) =
      map_err (parse_failure "failed to parse permissions: ") (yaml.from_json text) >>= λ perms.
      ok (some perms)

  unfoldable pub get_permissions : String → db.Database → Result AvixError (Option ToolPermissions)
  get_permissions tool_name d = map_err config_parse (db.get tool_name d) >>= parsed_permissions

  abbrev pub text_of : ToolPermissions → Result String (Unit {0}) → Result AvixError String
  text_of perms (err e) = err (config_parse e)
  text_of perms (ok _) =
      map_err (parse_failure "failed to serialize permissions: ") (yaml.to_json perms)

  abbrev pub set_text : String → db.Database → Result AvixError String → Saved db yaml
  set_text tool_name d (err e) = (err e, d)
  set_text tool_name d (ok text) = saved db yaml d (db.insert tool_name text d)

  unfoldable pub set_permissions : String → ToolPermissions → db.Database → Saved db yaml
  set_permissions tool_name perms d = set_text tool_name d (text_of perms (begin_write d))

  abbrev pub parse_entries :
      List (String × String) → Result AvixError (List (String × ToolPermissions))
  parse_entries [] = ok []
  parse_entries ((key, text) ∷ rest) =
      map_err (parse_failure "failed to parse: ") (yaml.from_json text) >>= λ perms.
      parse_entries rest >>= λ others. ok ((key, perms) ∷ others)

  unfoldable pub all_permissions : db.Database → Result AvixError (List (String × ToolPermissions))
  all_permissions d = map_err config_parse (entries d) >>= parse_entries

  abbrev pub delete_permissions : String → db.Database → Saved db yaml
  delete_permissions tool_name d = delete_record db yaml tool_name d

  read_set :
      (tool_name text : String) (perms : ToolPermissions) (d : db.Database)
      → IsFaithful db yaml
      → yaml.from_json text ≡ ok perms
      → (set_text tool_name d (ok text)).0 ≡ ok tt
      → get_permissions tool_name (set_text tool_name d (ok text)).1 ≡ ok (some perms)
  unfolding get_permissions
  read_set tool_name text perms d faithful r h = elim (Result-cases (db.insert tool_name text d)) [
    | inl (d', e) ↦
        rw (e, saved)
          (rw (get_permissions, faithful.get_insert tool_name text d d' e, parsed_permissions, r)
            refl)
    | inr (x, e) ↦ absurd (ground (arith, e, h))
  ]

  text_of-reads :
      (perms : ToolPermissions) (begun : Result String (Unit {0})) (text : String)
      → IsFaithful db yaml
      → text_of perms begun ≡ ok text
      → yaml.from_json text ≡ ok perms
  text_of-reads perms (err e) text faithful h = absurd (ground (arith, h))
  text_of-reads perms (ok u) text faithful h = faithful.read_back perms text (ground (arith, h))

  -- The permissions that were set are those of the tool.
  pub get_permissions-set_permissions :
      (tool_name : String) (perms : ToolPermissions) (d : db.Database)
      → IsFaithful db yaml
      → (set_permissions tool_name perms d).0 ≡ ok tt
      → get_permissions tool_name (set_permissions tool_name perms d).1 ≡ ok (some perms)
  unfolding set_permissions
  get_permissions-set_permissions tool_name perms d faithful h =
      elim (Result-cases (text_of perms (begin_write d))) [
        | inl (text, e) ↦ rw (e) (
            read_set tool_name text perms d faithful
              (text_of-reads perms (begin_write d) text faithful e) (ground (arith, e, h)))
        | inr (x, e) ↦ absurd (ground (arith, e, h))
      ]

-- ===== src/Router/Services.antt =====
-- crates/avix-core/src/router/registry.rs: the endpoints of services and the services of tools.
use avix.Base.{
  ℕ, String, Bool, if◌then◌else◌, string_eq, List, [], Option, length, contains, add_to, keep, not,
  ◌==◌,
}
use avix.Base.Dict.{Dict, get, insert, remove}

pub record ServiceRegistry : Type 0 where
  pub services : Dict String String
  pub tools : Dict String String
  pub caller_scoped : List String

abbrev pub no_services : ServiceRegistry
no_services = record { services = []; tools = []; caller_scoped = [] }

unfoldable pub register_service : String → String → ServiceRegistry → ServiceRegistry
register_service name endpoint reg = record reg { services = insert name endpoint reg.services }

unfoldable pub register_with_meta : String → String → Bool → ServiceRegistry → ServiceRegistry
register_with_meta name endpoint scoped reg = record reg {
  services = insert name endpoint reg.services;
  caller_scoped = if scoped then add_to name reg.caller_scoped else reg.caller_scoped;
}

unfoldable pub deregister : String → ServiceRegistry → ServiceRegistry
deregister name reg = record reg {
  services = remove name reg.services;
  caller_scoped = keep (λ n. not (n == name)) reg.caller_scoped;
}

unfoldable pub is_caller_scoped : String → ServiceRegistry → Bool
is_caller_scoped name reg = contains reg.caller_scoped name

unfoldable pub lookup_service : String → ServiceRegistry → Option String
lookup_service name reg = get name reg.services

unfoldable pub register_tool : String → String → ServiceRegistry → ServiceRegistry
register_tool tool service reg = record reg { tools = insert tool service reg.tools }

unfoldable pub service_for_tool : String → ServiceRegistry → Option String
service_for_tool tool reg = get tool reg.tools

pub service_tool_count : ServiceRegistry → ℕ
service_tool_count reg = length reg.tools

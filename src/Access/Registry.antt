-- ===== src/Access/Registry.antt =====
-- src/tools/registry.rs: the catalog of the built-in tools. The texts that are only shown to the
-- model (descriptions, schemas and prompt examples) are left out.
use agent_kuibysheff.Common.{
  String, Bool, true, false, Option, none, some, List, [], ◌∷◌, ◌++◌, map, ◌==◌, nat_eq, list_eq,
  any, filter, Text, text, if◌then◌else◌,
}

pub data BuiltinHandlerId : Type 0 where
  home local_tools profile : BuiltinHandlerId

pub record ToolDescriptor : Type 0 where
  pub name : Text
  pub server : Text
  pub tool : Text
  pub legacy_default : Bool
  pub requires_programs : Bool
  pub handler : BuiltinHandlerId

abbrev descriptor : String → String → Bool → Bool → BuiltinHandlerId → ToolDescriptor
descriptor server tool legacy programs handler = record {
  name = text server ++ b'.' ∷ text tool;
  server = text server;
  tool = text tool;
  legacy_default = legacy;
  requires_programs = programs;
  handler = handler;
}

unfoldable pub builtins : List ToolDescriptor
builtins =
    descriptor "home" "list" true false home
    ∷ descriptor "home" "read" true false home
    ∷ descriptor "home" "write" true false home
    ∷ descriptor "home" "run" false true home
    ∷ descriptor "local_tools" "search_docs" true false local_tools
    ∷ descriptor "local_tools" "read_file" true false local_tools
    ∷ descriptor "profile" "list_skill" false false profile
    ∷ descriptor "profile" "read_skill" false false profile
    ∷ []

unfoldable pub known_builtin_names : List Text
unfolding builtins
known_builtin_names = map (λ (d : ToolDescriptor). d.name) builtins

unfoldable pub legacy_builtin_names : List Text
unfolding builtins
legacy_builtin_names =
    map (λ (d : ToolDescriptor). d.name) (filter (λ d. d.legacy_default) builtins)

unfoldable pub is_known_builtin : Text → Bool
unfolding builtins
is_known_builtin name = any (λ (d : ToolDescriptor). d.name == name) builtins

unfoldable pub is_builtin_server : Text → Bool
unfolding builtins
is_builtin_server server = any (λ (d : ToolDescriptor). d.server == server) builtins

abbrev find_handler : Text → List ToolDescriptor → Option BuiltinHandlerId
find_handler server [] = none
find_handler server (d ∷ ds) = if d.server == server then some d.handler else find_handler server ds

unfoldable pub handler_for_server : Text → Option BuiltinHandlerId
unfolding builtins
handler_for_server server = find_handler server builtins

-- ===== src/Tests/Gates.antt =====
-- Tool policies and path grants on concrete inputs.
use agent_kuibysheff.Common.{
  ◌≡◌, ◌⊎◌, refl, true, false, ◌&&◌, ◌||◌, any, contains, List, [], ◌∷◌, Text, text, ok, err, trim,
  list_beq, contains_char, split_once, nat_eq, list_eq,
}
use mathlib.Core.List.{Memᴰ}
use agent_kuibysheff.Access.ToolName
use agent_kuibysheff.Access.ToolName.{
  QualifiedTool, IsQualified, parse, qualified, tool_eq, qualified-parse, parse-qualified,
  new-IsQualified,
}
use agent_kuibysheff.Access.Registry.{is_builtin_server}
use agent_kuibysheff.Access.Policy.{
  EffectiveToolPolicy, known, compile, allows, allows_server_tool, grant_profile_skills,
}
use agent_kuibysheff.Access.Policy.Members.{allows-compile}
use agent_kuibysheff.Access.Gate.{policy, policy_call, validate_mcp_names}
use agent_kuibysheff.Access.Gate.Denial.{Granted, policy_call_denied, policy_call_builtin}
use agent_kuibysheff.Access.Paths.{components, is_within_root, path_contains_protected_segment}
use agent_kuibysheff.Access.Grant.{
  RelativeGrant, relative_components, strict_scope, allows_relative, InputFilesPolicy,
  allows_canonical_file,
}
use agent_kuibysheff.Access.Grant.Cover.{Begins, allows_relative-Begins, allows_canonical_file_root}
use agent_kuibysheff.Tests.Fixtures.{read_file}

abbrev home_read : QualifiedTool
home_read = record { server = text "home"; tool = text "read" }

abbrev home_run : QualifiedTool
home_run = record { server = text "home"; tool = text "run" }

abbrev only_read : EffectiveToolPolicy
only_read = record { tools = home_read ∷ [] }

run_refused : allows_server_tool only_read (text "home") (text "run") ≡ false
unfolding allows_server_tool ToolName.new contains contains_char list_beq
run_refused = refl

policy_call_denied_example :
    policy_call read_file only_read (text "home") (text "run") (text "x") 3
    ≡ (err (policy (text "home.run")), 3)
policy_call_denied_example =
    policy_call_denied read_file only_read (text "home") (text "run") (text "x") 3 run_refused

home_built_in : is_builtin_server (text "home") ≡ true
unfolding is_builtin_server list_beq
home_built_in = refl

no_servers : validate_mcp_names [] ≡ ok tt
unfolding validate_mcp_names
no_servers = refl

policy_call_builtin_example :
    Granted (home_read ∷ []) (home_read ∷ []) home_run
    ⊎ (policy_call read_file
          (grant_profile_skills (compile (home_read ∷ []) (home_read ∷ []) []))
          (text "home")
          (text "run")
          (text "x")
          3
        ≡ (err (policy (text "home.run")), 3))
policy_call_builtin_example =
    policy_call_builtin read_file (home_read ∷ []) (home_read ∷ []) [] [] (text "home") (text "run")
      (text "x") 3 no_servers tt home_built_in

allows-compile_example :
    allows (compile (home_read ∷ []) (home_read ∷ home_run ∷ []) []) home_run ≡ (
      contains [] home_run && contains (home_read ∷ home_run ∷ []) home_run
      || contains known home_run
        && (contains (home_read ∷ []) home_run && contains (home_read ∷ home_run ∷ []) home_run))
allows-compile_example = allows-compile (home_read ∷ []) (home_read ∷ home_run ∷ []) [] home_run

parses : parse (text " home.read ") ≡ ok home_read
unfolding parse trim split_once contains_char
parses = refl

qualified-parse_example : (qualified home_read ≡ trim (text " home.read ")) × IsQualified home_read
qualified-parse_example = qualified-parse (text " home.read ") home_read parses

abbrev docs : RelativeGrant
docs = record { components = text "docs" ∷ [] }

doc_components : relative_components (text "docs/a.md") ≡ ok (text "docs" ∷ text "a.md" ∷ [])
unfolding relative_components components list_beq
doc_components = refl

doc_allowed : allows_relative (strict_scope (docs ∷ [])) (text "docs/a.md") ≡ ok tt
unfolding allows_relative relative_components components list_beq
doc_allowed = refl

allows_relative-Begins_example :
    (cs : List Text) × (relative_components (text "docs/a.md") ≡ ok cs)
    × (g : RelativeGrant) × Memᴰ g (docs ∷ [])
    × Begins g cs
allows_relative-Begins_example = allows_relative-Begins (docs ∷ []) (text "docs/a.md") doc_allowed

abbrev inputs : InputFilesPolicy
inputs = record { unrestricted = false; roots = text "/data" ∷ [] }

input_allowed : allows_canonical_file inputs (text "/data/a") ≡ ok tt
unfolding allows_canonical_file path_contains_protected_segment list_beq is_within_root
input_allowed = refl

allows_canonical_file_root_example :
    (path_contains_protected_segment (text "/data/a") ≡ false)
    × ((false ≡ true)
        ⊎ (any (λ root. is_within_root root (text "/data/a")) (text "/data" ∷ []) ≡ true))
allows_canonical_file_root_example =
    allows_canonical_file_root inputs (text "/data/a") input_allowed

home_read_made : ToolName.new (text "home") (text "read") ≡ ok home_read
unfolding ToolName.new contains_char
home_read_made = refl

home_read-IsQualified : IsQualified home_read
home_read-IsQualified = (new-IsQualified (text "home") (text "read") home_read home_read_made).2

home_read_trimmed : trim (qualified home_read) ≡ qualified home_read
unfolding trim
home_read_trimmed = refl

parse-qualified_example : parse (qualified home_read) ≡ ok home_read
parse-qualified_example = parse-qualified home_read home_read-IsQualified home_read_trimmed

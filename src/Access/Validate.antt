-- ===== src/Access/Validate.antt =====
-- The checks of a declared access policy that need no file system (src/access/mod.rs).
use agent_kuibysheff.Common.{
  Bool, not, Option, none, some, List, [], ◌∷◌, ◌==◌, nat_eq, list_eq, is_empty, any, map, contains,
  Text, text, trim, to_ascii_lowercase, Result, ok, err, map_err, ensure, ◌>>=◌, ◌>>◌,
}
use agent_kuibysheff.Access.Config.{
  AccessModeField, strict, legacy, WorkspacePolicyConfig, ProgramPolicyConfig, RunPolicyConfig,
  AccessPolicyConfig, grants_are_default,
}
use agent_kuibysheff.Access.ToolName
use agent_kuibysheff.Access.ToolName.{QualifiedTool, ToolNameError, qualified}
use agent_kuibysheff.Access.Registry.{is_known_builtin}
use agent_kuibysheff.Access.Grant.{PathError, parse_grant}
use agent_kuibysheff.Access.Gate.{validate_mcp_names}

-- `AccessError::Validation`: the messages, each with the values that it shows.
pub data AccessError : Type 0 where
  missing_access legacy_mixed : AccessError
  reserved_mcp_name : Text → AccessError
  builtin_name : ToolNameError → AccessError
  unknown_builtin duplicate_builtin : Text → AccessError
  -- the field and the reason
  relative_grant : Text → PathError → AccessError
  empty_workspace_root empty_input_root empty_program_name : AccessError
  -- the limit of `access.run` that is zero
  zero_limit : Text → AccessError
  duplicate_alias empty_executable empty_inherit_env : Text → AccessError
  -- the alias and the key
  forbidden_inherit_env : Text → Text → AccessError
  -- the path and the error of the system
  not_canonicalized : Text → Text → AccessError
  workspace_not_directory input_root_not_directory : Text → AccessError
  workspace_protected : AccessError
  workspace_grants_protected : Text → AccessError
  -- the alias and the path
  executable_not_file runtime_root_missing : Text → Text → AccessError

abbrev pub forbidden_inherit_env_keys : List Text
forbidden_inherit_env_keys =
    text "LD_PRELOAD"
    ∷ text "LD_AUDIT"
    ∷ text "LD_LIBRARY_PATH"
    ∷ text "DYLD_INSERT_LIBRARIES"
    ∷ text "DYLD_LIBRARY_PATH"
    ∷ text "DYLD_FORCE_FLAT_NAMESPACE"
    ∷ []

-- `eq_ignore_ascii_case`
abbrev same_ignoring_case : Text → Text → Bool
same_ignoring_case a b = map to_ascii_lowercase a == map to_ascii_lowercase b

unfoldable pub is_forbidden_inherit_env_key : Text → Bool
unfolding to_ascii_lowercase
is_forbidden_inherit_env_key key =
    any (λ forbidden. same_ignoring_case key forbidden) forbidden_inherit_env_keys

-- `ProgramAlias::parse`
unfoldable pub parse_alias : Text → Result Text AccessError
unfolding trim
parse_alias raw = do
  let trimmed = trim raw
  ensure (not (is_empty trimmed)) empty_program_name
  ok trimmed

-- The loop of `validate_builtins_list`; `seen` are the names before.
unfoldable pub check_builtins : List Text → List Text → Result (Unit {0}) AccessError
unfolding contains
check_builtins seen [] = ok tt
check_builtins seen (raw ∷ rest) = do
  tool ← map_err builtin_name (ToolName.parse raw)
  ensure (is_known_builtin (qualified tool)) (unknown_builtin (qualified tool))
  ensure (not (contains seen (qualified tool))) (duplicate_builtin (qualified tool))
  check_builtins (qualified tool ∷ seen) rest

unfoldable pub validate_builtins_list : List Text → Result (Unit {0}) AccessError
unfolding check_builtins
validate_builtins_list builtins = check_builtins [] builtins

unfoldable pub validate_relative_grant_list : List Text → Text → Result (Unit {0}) AccessError
validate_relative_grant_list [] grant_field = ok tt
validate_relative_grant_list (raw ∷ rest) grant_field = do
  parsed ← map_err (relative_grant grant_field) (parse_grant raw)
  validate_relative_grant_list rest grant_field

unfoldable pub validate_run_limits : RunPolicyConfig → Result (Unit {0}) AccessError
validate_run_limits run = do
  ensure (not (run.max_args == 0)) (zero_limit (text "max_args"))
  ensure (not (run.max_arg_chars == 0)) (zero_limit (text "max_arg_chars"))
  ensure (not (run.max_output_chars == 0)) (zero_limit (text "max_output_chars"))
  ensure (not (run.max_timeout_ms == 0)) (zero_limit (text "max_timeout_ms"))
  ensure (not (run.max_processes == 0)) (zero_limit (text "max_processes"))

unfoldable pub check_inherit_env : Text → List Text → Result (Unit {0}) AccessError
unfolding is_forbidden_inherit_env_key
check_inherit_env alias [] = ok tt
check_inherit_env alias (key ∷ keys) = do
  let normalized = trim key
  ensure (not (is_empty normalized)) (empty_inherit_env alias)
  ensure (not (is_forbidden_inherit_env_key normalized)) (forbidden_inherit_env alias normalized)
  check_inherit_env alias keys

-- The loop of `validate_program_aliases`; `aliases` are those before.
unfoldable pub check_programs : List Text → List ProgramPolicyConfig → Result (Unit {0}) AccessError
unfolding check_inherit_env parse_alias contains
check_programs aliases [] = ok tt
check_programs aliases (program ∷ programs) = do
  alias ← parse_alias program.name
  ensure (not (contains aliases alias)) (duplicate_alias alias)
  ensure (not (is_empty program.executable)) (empty_executable alias)
  check_inherit_env alias program.inherit_env
  check_programs (alias ∷ aliases) programs

unfoldable pub validate_program_aliases : List ProgramPolicyConfig → Result (Unit {0}) AccessError
unfolding check_programs
validate_program_aliases programs = check_programs [] programs

abbrev validate_workspace : Option WorkspacePolicyConfig → Result (Unit {0}) AccessError
validate_workspace none = ok tt
validate_workspace (some workspace) = do
  ensure (not (is_empty workspace.root)) empty_workspace_root
  validate_relative_grant_list workspace.read (text "filesystem.workspace.read")

unfoldable pub validate_input_roots : List Text → Result (Unit {0}) AccessError
validate_input_roots [] = ok tt
validate_input_roots (root ∷ roots) = do
  ensure (not (is_empty root)) empty_input_root
  validate_input_roots roots

abbrev validate_strict : AccessPolicyConfig → Result (Unit {0}) AccessError
validate_strict access = do
  validate_builtins_list access.tools.builtins
  validate_relative_grant_list access.filesystem.home.read (text "filesystem.home.read")
  validate_relative_grant_list access.filesystem.home.write (text "filesystem.home.write")
  validate_workspace access.filesystem.workspace
  validate_input_roots access.filesystem.input_roots
  validate_run_limits access.run
  validate_program_aliases access.run.programs

abbrev validate_mode : AccessPolicyConfig → AccessModeField → Result (Unit {0}) AccessError
validate_mode access legacy = ensure (grants_are_default access) legacy_mixed
validate_mode access strict = validate_strict access

unfoldable pub validate_access_config :
    Option AccessPolicyConfig → List Text → Result (Unit {0}) AccessError
unfolding validate_builtins_list validate_relative_grant_list validate_input_roots
    validate_run_limits validate_program_aliases grants_are_default
validate_access_config access mcp_names = do
  map_err reserved_mcp_name (validate_mcp_names mcp_names)
  elim access [ none ↦ err missing_access | some policy ↦ validate_mode policy policy.mode ]

-- ===== src/Access/Resolve.antt =====
-- The access policy of a run, compiled from the declared one (src/access/mod.rs).
pub mod Outcome
use agent_kuibysheff.Common.{
  ℕ, Bool, true, false, not, Option, none, some, List, [], ◌∷◌, ◌==◌, nat_eq, list_eq,
  if◌then◌else◌, is_empty, map, contains, insert, Text, text, trim, Result, ok, err, map_err,
  ensure, ◌>>=◌, ◌>>◌,
}
use agent_kuibysheff.Access.Config.{
  AccessModeField, ToolsPolicyConfig, WorkspacePolicyConfig, FilesystemPolicyConfig,
  ProgramPolicyConfig, RunPolicyConfig, AccessPolicyConfig, grants_are_default, default_run,
}
use agent_kuibysheff.Access.ToolName
use agent_kuibysheff.Access.ToolName.{QualifiedTool, tool_eq, tool_ord}
use agent_kuibysheff.Access.Registry.{legacy_builtin_names}
use agent_kuibysheff.Access.Policy.{parse_known_builtins}
use agent_kuibysheff.Access.Paths.{is_absolute, path_contains_protected_segment}
use agent_kuibysheff.Access.Lexical.{
  join, ProtectedError, grants_protected, validate_workspace_excludes_protected,
}
use agent_kuibysheff.Access.Grant.{RelativeGrant, AccessMode, legacy, strict, parse_grant}
use agent_kuibysheff.Access.Validate.{
  AccessError, missing_access, legacy_mixed, builtin_name, relative_grant, not_canonicalized,
  workspace_not_directory, workspace_protected, workspace_grants_protected,
  input_root_not_directory, executable_not_file, runtime_root_missing, parse_alias,
  validate_builtins_list, validate_run_limits, validate_program_aliases,
}

-- The file system, as far as the resolution asks it.
pub record FileSystem : Type 0 where
  -- `fs::canonicalize`, with the message of its error
  pub canonical : Text → Result Text Text
  pub is_dir : Text → Bool
  pub is_file : Text → Bool
  pub path_exists : Text → Bool

pub record ResolvedProgramPolicy : Type 0 where
  pub alias : Text
  pub executable : Text
  pub runtime_read_roots : List Text
  pub inherit_env : List Text
  pub allow_children : Bool

pub record ResolvedWorkspacePolicy : Type 0 where
  pub root : Text
  pub read : List RelativeGrant

pub record ResolvedAccessPolicy : Type 0 where
  pub mode : AccessMode
  pub allowed_builtins : List QualifiedTool
  pub home_read : List RelativeGrant
  pub home_write : List RelativeGrant
  pub workspace : Option ResolvedWorkspacePolicy
  pub input_roots : List Text
  -- by alias, in the order of the configuration
  pub programs : List ResolvedProgramPolicy
  pub max_args : ℕ
  pub max_arg_chars : ℕ
  pub max_output_chars : ℕ
  pub max_timeout_ms : ℕ
  pub max_processes : ℕ

-- `ResolvedAccessPolicy::legacy`
unfoldable pub legacy_policy : ResolvedAccessPolicy
unfolding legacy_builtin_names parse_known_builtins
legacy_policy = record {
  mode = legacy;
  allowed_builtins = parse_known_builtins legacy_builtin_names;
  home_read = [];
  home_write = [];
  workspace = none;
  input_roots = [];
  programs = [];
  max_args = default_run.max_args;
  max_arg_chars = default_run.max_arg_chars;
  max_output_chars = default_run.max_output_chars;
  max_timeout_ms = default_run.max_timeout_ms;
  max_processes = default_run.max_processes;
}

unfoldable pub collect_builtins :
    List QualifiedTool → List Text → Result (List QualifiedTool) AccessError
unfolding insert
collect_builtins tools [] = ok tools
collect_builtins tools (raw ∷ rest) = do
  tool ← map_err builtin_name (ToolName.parse raw)
  collect_builtins (insert tool tools) rest

unfoldable pub resolve_builtins : ToolsPolicyConfig → Result (List QualifiedTool) AccessError
unfolding validate_builtins_list collect_builtins
resolve_builtins tools = do
  validate_builtins_list tools.builtins
  collect_builtins [] tools.builtins

unfoldable pub resolve_relative_grants : List Text → Text → Result (List RelativeGrant) AccessError
resolve_relative_grants [] grant_field = ok []
resolve_relative_grants (raw ∷ rest) grant_field = do
  grant ← map_err (relative_grant grant_field) (parse_grant raw)
  grants ← resolve_relative_grants rest grant_field
  ok (grant ∷ grants)

abbrev pub resolve_against_config_dir : Text → Text → Text
resolve_against_config_dir config_dir path = if is_absolute path then path else join config_dir path

-- Only the refusal of a grant counts here: the project root is not known.
abbrev check_grants : Result (Unit {0}) ProtectedError → Result (Unit {0}) AccessError
check_grants (err (grants_protected grant)) = err (workspace_grants_protected grant)
check_grants _ = ok tt

module _ (fs : FileSystem) (config_dir : Text) where
  -- `CanonicalRoot::canonicalize` of a path below the configuration
  unfoldable pub canonicalize : Text → Result Text AccessError
  canonicalize path =
      let full = resolve_against_config_dir config_dir path in
      map_err (not_canonicalized full) (fs.canonical full)

  unfoldable pub resolve_workspace :
      Option WorkspacePolicyConfig → Result (Option ResolvedWorkspacePolicy) AccessError
  unfolding canonicalize resolve_relative_grants path_contains_protected_segment
      validate_workspace_excludes_protected
  resolve_workspace none = ok none
  resolve_workspace (some workspace) = do
    root ← canonicalize workspace.root
    ensure (fs.is_dir root) (workspace_not_directory root)
    ensure (not (path_contains_protected_segment root)) workspace_protected
    read ← resolve_relative_grants workspace.read (text "filesystem.workspace.read")
    check_grants (validate_workspace_excludes_protected (text ".") root workspace.read)
    ok (some (record { root = root; read = read }))

  unfoldable pub resolve_input_roots : List Text → Result (List Text) AccessError
  unfolding canonicalize
  resolve_input_roots [] = ok []
  resolve_input_roots (root ∷ roots) = do
    resolved ← canonicalize root
    ensure (fs.is_dir resolved) (input_root_not_directory resolved)
    later ← resolve_input_roots roots
    ok (resolved ∷ later)

  unfoldable pub resolve_runtime_roots : Text → List Text → Result (List Text) AccessError
  unfolding canonicalize
  resolve_runtime_roots alias [] = ok []
  resolve_runtime_roots alias (root ∷ roots) = do
    resolved ← canonicalize root
    ensure (fs.path_exists resolved) (runtime_root_missing alias resolved)
    later ← resolve_runtime_roots alias roots
    ok (resolved ∷ later)

  unfoldable pub resolve_program : ProgramPolicyConfig → Result ResolvedProgramPolicy AccessError
  unfolding canonicalize resolve_runtime_roots parse_alias
  resolve_program program = do
    alias ← parse_alias program.name
    executable ← canonicalize program.executable
    ensure (fs.is_file executable) (executable_not_file alias executable)
    roots ← resolve_runtime_roots alias program.runtime_read_roots
    ok (record {
      alias = alias;
      executable = executable;
      runtime_read_roots = roots;
      inherit_env = map trim program.inherit_env;
      allow_children = program.allow_children;
    })

  -- The aliases differ from one another, so each program keeps its own entry of the map.
  unfoldable pub resolve_programs :
      List ProgramPolicyConfig → Result (List ResolvedProgramPolicy) AccessError
  unfolding resolve_program
  resolve_programs [] = ok []
  resolve_programs (program ∷ programs) = do
    resolved ← resolve_program program
    later ← resolve_programs programs
    ok (resolved ∷ later)

  unfoldable pub resolve_run : RunPolicyConfig → Result (List ResolvedProgramPolicy) AccessError
  unfolding resolve_programs validate_run_limits validate_program_aliases
  resolve_run run = do
    validate_run_limits run
    validate_program_aliases run.programs
    resolve_programs run.programs

  unfoldable pub resolve_strict : AccessPolicyConfig → Result ResolvedAccessPolicy AccessError
  resolve_strict access = do
    allowed_builtins ← resolve_builtins access.tools
    home_read ← resolve_relative_grants access.filesystem.home.read (text "filesystem.home.read")
    home_write ← resolve_relative_grants access.filesystem.home.write (text "filesystem.home.write")
    workspace ← resolve_workspace access.filesystem.workspace
    input_roots ← resolve_input_roots access.filesystem.input_roots
    programs ← resolve_run access.run
    ok (record {
      mode = strict;
      allowed_builtins = allowed_builtins;
      home_read = home_read;
      home_write = home_write;
      workspace = workspace;
      input_roots = input_roots;
      programs = programs;
      max_args = access.run.max_args;
      max_arg_chars = access.run.max_arg_chars;
      max_output_chars = access.run.max_output_chars;
      max_timeout_ms = access.run.max_timeout_ms;
      max_processes = access.run.max_processes;
    })

  abbrev pub resolve_mode :
      AccessPolicyConfig → AccessModeField → Result ResolvedAccessPolicy AccessError
  resolve_mode access AccessModeField.legacy = do
    ensure (grants_are_default access) legacy_mixed
    ok legacy_policy
  resolve_mode access AccessModeField.strict = resolve_strict access

  unfoldable pub resolve_access_policy :
      Option AccessPolicyConfig → Result ResolvedAccessPolicy AccessError
  resolve_access_policy none = err missing_access
  resolve_access_policy (some access) = resolve_mode access access.mode

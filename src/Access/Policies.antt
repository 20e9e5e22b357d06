-- ===== src/Access/Policies.antt =====
-- What the tools of a run may touch, derived from its access policy (src/access/paths.rs).
pub mod Declared
use agent_kuibysheff.Common.{
  ℕ, Bool, true, false, Option, none, some, List, [], ◌∷◌, if◌then◌else◌, Text,
}
use agent_kuibysheff.Access.Grant.{
  PathGrantScope, legacy_scope, strict_scope, deny_all, is_legacy, InputFilesPolicy,
}
use agent_kuibysheff.Access.Resolve.{
  ResolvedProgramPolicy, ResolvedWorkspacePolicy, ResolvedAccessPolicy,
}

pub record HomeFsPolicy : Type 0 where
  pub read : PathGrantScope
  pub write : PathGrantScope
  pub programs : List ResolvedProgramPolicy
  pub max_args : ℕ
  pub max_arg_chars : ℕ
  pub max_output_chars : ℕ
  pub max_timeout_ms : ℕ
  pub max_processes : ℕ

abbrev pub with_scopes : ResolvedAccessPolicy → PathGrantScope → PathGrantScope → HomeFsPolicy
with_scopes policy read write = record {
  read = read;
  write = write;
  programs = policy.programs;
  max_args = policy.max_args;
  max_arg_chars = policy.max_arg_chars;
  max_output_chars = policy.max_output_chars;
  max_timeout_ms = policy.max_timeout_ms;
  max_processes = policy.max_processes;
}

-- `HomeFsPolicy::from_access`
unfoldable pub home_policy : ResolvedAccessPolicy → HomeFsPolicy
home_policy policy =
    if is_legacy policy.mode
    then with_scopes policy legacy_scope legacy_scope
    else with_scopes policy (strict_scope policy.home_read) (strict_scope policy.home_write)

abbrev workspace_grants : Option ResolvedWorkspacePolicy → PathGrantScope
workspace_grants none = deny_all
workspace_grants (some workspace) = strict_scope workspace.read

-- The scope that `WorkspaceFsPolicy::from_access` reads with.
unfoldable pub workspace_scope : ResolvedAccessPolicy → PathGrantScope
workspace_scope policy =
    if is_legacy policy.mode then legacy_scope else workspace_grants policy.workspace

-- `InputFilesPolicy::from_access`
unfoldable pub input_files_policy : ResolvedAccessPolicy → InputFilesPolicy
input_files_policy policy =
    if is_legacy policy.mode
    then record { unrestricted = true; roots = [] }
    else record { unrestricted = false; roots = policy.input_roots }

abbrev or_root : Option Text → Text → Text
or_root none other = other
or_root (some root) other = root

abbrev workspace_root : Option ResolvedWorkspacePolicy → Text → Text
workspace_root none other = other
workspace_root (some workspace) other = workspace.root

-- The configured root, else that of the project, of the configuration, or the current directory.
unfoldable pub workspace_root_for_run :
    ResolvedAccessPolicy → Text → Option Text → Option Text → Text
workspace_root_for_run access current_dir project_root config_dir =
    workspace_root access.workspace (or_root project_root (or_root config_dir current_dir))

-- ===== src/ProjectPaths.antt =====
-- The directories of an agent below a project (src/project_paths.rs). The Unicode classes of
-- characters are parameters.
pub mod AgentId
use agent_kuibysheff.Common.{
  ℕ, Bool, true, false, not, ◌&&◌, ◌||◌, Option, none, some, List, [], ◌∷◌, ◌==◌, nat_eq, list_eq,
  if◌then◌else◌, is_empty, any, all, length, Text, text, trim, contains_char, contains_text, Result,
  ok, err, ensure, ◌>>=◌, ◌>>◌,
}
use agent_kuibysheff.Access.Paths.{
  Component, root_dir, cur_dir, parent_dir, normal, slash, components, is_absolute,
}
use agent_kuibysheff.Access.Lexical.{join, protected_root, is_protected_path}

pub data AgentPathError : Type 0 where
  invalid_agent_id : Text → AgentPathError
  invalid_home_path : AgentPathError
  home_not_allowed invalid_mcp_server_name : Text → AgentPathError

abbrev pub kuibysheff_root : Text → Text
kuibysheff_root project_root = join project_root (text ".kuibysheff")

abbrev pub runtime_root : Text → Text
runtime_root project_root = join (kuibysheff_root project_root) (text "runtime")

abbrev pub protected_agents_root : Text → Text
protected_agents_root project_root = join (protected_root project_root) (text "agents")

-- Characters that Windows reserves: < > : " | ? *
abbrev pub is_reserved : ℕ → Bool
is_reserved c = c == 60 || c == 62 || c == 58 || c == 34 || c == 124 || c == 63 || c == 42

pub record ResolvedAgentPaths : Type 0 where
  pub project_root : Text
  pub agent_id : Text
  pub profile_dir : Text
  pub config : Text
  pub settings_dir : Text
  pub home : Text

abbrev is_parent : Component → Bool
is_parent parent_dir = true
is_parent _ = false

unfoldable pub path_has_parent_component : Text → Bool
unfolding components
path_has_parent_component path = any is_parent (components path)

abbrev begins_protected : List Component → Bool
begins_protected (normal c ∷ cs) = c == text "protected"
begins_protected _ = false

unfoldable pub resolve_home_override : Text → Text → Result Text AgentPathError
unfolding path_has_parent_component is_protected_path
resolve_home_override project_root home = do
  ensure (not (is_absolute home)) invalid_home_path
  ensure (not (path_has_parent_component home)) invalid_home_path
  ensure (not (begins_protected (components home))) (home_not_allowed home)
  let resolved = join (kuibysheff_root project_root) home
  ensure (not (is_protected_path project_root resolved)) (home_not_allowed resolved)
  ok resolved

-- The first choice that there is: a session directory that is not empty, or the one of the command line.
unfoldable pub effective_project_root : Option Text → Option Text → Option Text
effective_project_root none cli = cli
effective_project_root (some cwd) cli = if is_empty cwd then cli else some cwd

module _ (is_alphanumeric is_control : ℕ → Bool) where
  abbrev may_follow : ℕ → Bool
  may_follow c = is_alphanumeric c || c == b'_' || c == b'-' || c == b' '

  abbrev well_formed : Text → Bool
  well_formed [] = false
  well_formed (first ∷ chars) = is_alphanumeric first && all may_follow chars

  unfoldable pub validate_agent_id : Text → Result (Unit {0}) AgentPathError
  unfolding trim contains_char contains_text
  validate_agent_id agent_id = do
    ensure (not (is_empty agent_id) && agent_id == trim agent_id) (invalid_agent_id agent_id)
    ensure
        (not (
          contains_char slash agent_id
          || contains_char 92 agent_id
          || contains_text (text "..") agent_id
          || any (λ c. is_control c || is_reserved c) agent_id))
        (invalid_agent_id agent_id)
    ensure (well_formed agent_id) (invalid_agent_id agent_id)

  unfoldable pub agent_runtime_skills_dir : Text → Text → Result Text AgentPathError
  unfolding validate_agent_id
  agent_runtime_skills_dir project_root agent_id = do
    validate_agent_id agent_id
    ok (join (join (runtime_root project_root) (text "skills")) agent_id)

  unfoldable pub agent_profile_dir : Text → Text → Result Text AgentPathError
  unfolding validate_agent_id
  agent_profile_dir project_root agent_id = do
    validate_agent_id agent_id
    ok (join (protected_agents_root project_root) agent_id)

  unfoldable pub agent_config_path : Text → Text → Result Text AgentPathError
  unfolding agent_profile_dir
  agent_config_path project_root agent_id = do
    profile ← agent_profile_dir project_root agent_id
    ok (join profile (text "agent-config.yaml"))

  unfoldable pub agent_home_dir : Text → Text → Result Text AgentPathError
  unfolding validate_agent_id
  agent_home_dir project_root agent_id = do
    validate_agent_id agent_id
    ok (join (join (kuibysheff_root project_root) (text "homes")) agent_id)

  unfoldable pub mcp_runtime_dir : Text → Text → Text → Result Text AgentPathError
  unfolding validate_agent_id components
  mcp_runtime_dir project_root agent_id server = do
    validate_agent_id agent_id
    ensure
        (not (
          is_empty server
          || contains_char slash server
          || contains_char 92 server
          || contains_text (text "..") server
          || not (length (components server) == 1)))
        (invalid_mcp_server_name server)
    ok (join (join (join (kuibysheff_root project_root) (text "mcp-runtime")) agent_id) server)

  abbrev choose_home : Text → Text → Option Text → Result Text AgentPathError
  choose_home project_root agent_id none = agent_home_dir project_root agent_id
  choose_home project_root agent_id (some raw) = resolve_home_override project_root raw

  unfoldable pub resolve_agent_identity :
      Text → Text → Option Text → Result ResolvedAgentPaths AgentPathError
  unfolding validate_agent_id agent_profile_dir agent_home_dir resolve_home_override
  resolve_agent_identity project_root agent_id home_override = do
    validate_agent_id agent_id
    profile_dir ← agent_profile_dir project_root agent_id
    home ← choose_home project_root agent_id home_override
    ok (record {
      project_root = project_root;
      agent_id = agent_id;
      profile_dir = profile_dir;
      config = join profile_dir (text "agent-config.yaml");
      settings_dir = profile_dir;
      home = home;
    })

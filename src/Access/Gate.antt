-- ===== src/Access/Gate.antt =====
-- src/tools/mod.rs and src/tool_api.rs: the dispatch of a tool call to its handler, and the policy
-- gate in front of it. A call takes the state of the world and returns the new one.
pub mod Denial
use agent_kuibysheff.Common.{
  Bool, true, false, Option, none, some, List, [], ◌∷◌, ◌++◌, map, extend, text_ord, ◌==◌, nat_eq,
  list_eq, Text, Result, ok, err, map_err, if◌then◌else◌,
}
use agent_kuibysheff.Access.Registry.{
  BuiltinHandlerId, known_builtin_names, handler_for_server, is_builtin_server,
}
use agent_kuibysheff.Access.Policy.{EffectiveToolPolicy, allows_server_tool, advertised}

-- The errors of the handlers are values of `E`.
pub data ToolError (E : Type 0) : Type 0 where
  external home_fs local_tools profile_skill : E → ToolError E
  -- `PolicyError::ToolDenied` with the qualified name
  policy : Text → ToolError E

abbrev pub Call : Type 0 → Type 0 → Type 0 → Type 0
Call W V A = Text → V → W → Result V A × W

-- `dyn ToolExecutor`
pub record ToolExecutor (W V E : Type 0) : Type 0 where
  pub call_tool : Text → Call W V (ToolError E)
  pub available_tools : List Text

pub record CompositeToolExecutor (W V E : Type 0) : Type 0 where
  pub home : Call W V E
  pub local_tools : Call W V E
  pub skills : Call W V E
  pub external : ToolExecutor W V E

module _ {W V E : Type 0} where
  abbrev lift_error : (E → ToolError E) → Result V E × W → Result V (ToolError E) × W
  lift_error f (r, w) = (map_err f r, w)

  -- `call_tool` of the composite executor
  unfoldable pub composite_call : CompositeToolExecutor W V E → Text → Call W V (ToolError E)
  composite_call c server tool arguments w = elim (handler_for_server server) [
    | some BuiltinHandlerId.home ↦ lift_error home_fs (c.home tool arguments w)
    | some BuiltinHandlerId.local_tools ↦
        lift_error ToolError.local_tools (c.local_tools tool arguments w)
    | some BuiltinHandlerId.profile ↦ lift_error profile_skill (c.skills tool arguments w)
    | none ↦ c.external.call_tool server tool arguments w
  ]

  -- Sorting and removing neighbours that are equal is inserting into an ordered set.
  unfoldable pub composite_tools : CompositeToolExecutor W V E → List Text
  composite_tools c = extend [] (c.external.available_tools ++ known_builtin_names)

  abbrev pub composite : CompositeToolExecutor W V E → ToolExecutor W V E
  composite c = record { call_tool = composite_call c; available_tools = composite_tools c }

  -- `call_tool` of `PolicyToolExecutor`
  unfoldable pub policy_call :
      ToolExecutor W V E → EffectiveToolPolicy → Text → Call W V (ToolError E)
  policy_call inner p server tool arguments w =
      if allows_server_tool p server tool
      then inner.call_tool server tool arguments w
      else (err (policy (server ++ b'.' ∷ tool)), w)

  abbrev pub gated : ToolExecutor W V E → EffectiveToolPolicy → ToolExecutor W V E
  gated inner p = record { call_tool = policy_call inner p; available_tools = advertised p }

-- The first check of `validate_access_config`: no MCP server has the name of a built-in one.
unfoldable pub validate_mcp_names : List Text → Result (Unit {0}) Text
validate_mcp_names [] = ok tt
validate_mcp_names (name ∷ names) =
    if is_builtin_server name then err name else validate_mcp_names names

-- ===== src/Tests/Events.antt =====
-- Event handlers, redaction, resolved access policies and project paths on concrete inputs.
use agent_kuibysheff.Common.{
  ℕ, ◌≡◌, ◌⊎◌, refl, arith, Bool, true, ◌||◌, ◌==◌, nat_eq, list_eq, none, some, List, [], ◌∷◌,
  ◌++◌, Text, text, ok, err, list_beq, text_less, within, if◌then◌else◌, split_once, trim,
  contains_char,
}
use agent_kuibysheff.Common.Json.{Value, null, string, object, end, field}
use agent_kuibysheff.Engine.Host.{context_before_model}
use agent_kuibysheff.Dispatch.Config.{continue}
use agent_kuibysheff.Dispatch.Handler.{replace, CompiledHandler, parse_outcome, validate_outcome}
use agent_kuibysheff.Dispatch.Chain.{
  EventHost, done, EventMcpDispatcher, Dispatching, dispatch, chain_of,
}
use agent_kuibysheff.Dispatch.Chain.Failure.{Dispatched, dispatch-Dispatched}
use agent_kuibysheff.Dispatch.Chain.Payload.{Provided, dispatch-Provided}
use agent_kuibysheff.Redaction.{AuditRedactionPolicy, redact_value, is_sensitive_key}
use agent_kuibysheff.Redaction.Secrets.{Alike, AlikeFields, redact_value-Alike, redact_value_twice}
use agent_kuibysheff.Access.Config.{AccessModeField, minimal_profile, grants_are_default}
use agent_kuibysheff.Access.Resolve.{
  FileSystem, ResolvedAccessPolicy, legacy_policy, resolve_access_policy, resolve_strict,
  resolve_builtins, resolve_relative_grants, resolve_workspace, resolve_input_roots, resolve_run,
}
use agent_kuibysheff.Access.Resolve.Outcome.{IsSafe, resolve_access_policy-IsSafe}
use agent_kuibysheff.Access.Grant
use agent_kuibysheff.Access.Grant.{RelativeGrant, parse_grant, relative_components, allows_relative}
use agent_kuibysheff.Access.Policies.{home_policy}
use agent_kuibysheff.Access.Policies.Declared.{DeclaredFor, home_policy-DeclaredFor}
use agent_kuibysheff.Access.Registry.{is_known_builtin}
use agent_kuibysheff.Access.ToolName
use agent_kuibysheff.Access.ToolName.{QualifiedTool}
use agent_kuibysheff.Access.Paths.{components, normal}
use agent_kuibysheff.ProjectPaths.{validate_agent_id, mcp_runtime_dir}
use agent_kuibysheff.ProjectPaths.AgentId.{validate_agent_id-components}

-- A world in which the tool `fails` fails and every other tool asks for a replacement.
abbrev event_host : EventHost (Unit {0})
event_host = record {
  available_tools = text "guard.check" ∷ [];
  encode = λ e. ok (1 ∷ 2 ∷ []);
  decode = λ bytes. ok null;
  measure = λ v. ok 2;
  from_str = λ t. err (text "no JSON");
  from_value =
      λ v. ok (record { action = replace; payload = some (string (text "new")); reason = none });
  call = λ ms server tool arguments w. (
    done (
        if tool == text "fails"
        then err (text "down")
        else ok (object (field (text "structuredContent") null end))),
    w,
  );
  log_invocation = λ event handler a w. w;
  to_string = λ n. text "1";
}

abbrev compiled : Text → CompiledHandler
compiled tool = record {
  id = text "h";
  server = text "guard";
  tool = tool;
  target = text "guard." ++ tool;
  timeout_ms = 5000;
  on_error = continue;
}

-- A failure that the policy passes over, and a replacement.
abbrev two_handlers : List CompiledHandler
two_handlers = compiled (text "fails") ∷ compiled (text "check") ∷ []

abbrev dispatcher : EventMcpDispatcher
dispatcher = record {
  chains = (context_before_model, two_handlers) ∷ [];
  max_payload_bytes = 10;
  max_outcome_bytes = 10;
}

abbrev fresh_dispatch : Dispatching (Unit {0})
fresh_dispatch = record { world = tt; next_event_id = 1 }

replaced_once :
    dispatch event_host dispatcher context_before_model none null fresh_dispatch
    ≡ (ok (string (text "new")), record fresh_dispatch { next_event_id = 3 })
unfolding dispatch list_beq parse_outcome validate_outcome
replaced_once = refl

dispatch-Dispatched_example :
    Dispatched event_host dispatcher context_before_model none two_handlers 1
      (dispatch event_host dispatcher context_before_model none null fresh_dispatch)
unfolding chain_of
dispatch-Dispatched_example =
    dispatch-Dispatched event_host dispatcher context_before_model none two_handlers null
      fresh_dispatch refl (omega arith)

dispatch-Provided_example :
    Provided event_host dispatcher context_before_model none two_handlers null (string (text "new"))
unfolding chain_of dispatch list_beq parse_outcome validate_outcome
dispatch-Provided_example =
    dispatch-Provided event_host dispatcher context_before_model none two_handlers null
      fresh_dispatch (string (text "new")) refl refl

abbrev redaction : AuditRedactionPolicy
redaction = record { enabled = true; max_string_chars = 3; sensitive_keys = text "token" ∷ [] }

abbrev login : Text → Value
login token =
    object (field (text "Token") (string token) (field (text "user") (string (text "alice")) end))

redact_value-Alike_example :
    redact_value (login (text "s3cret")) redaction ≡ redact_value (login (text "other")) redaction
unfolding is_sensitive_key list_beq
redact_value-Alike_example = redact_value-Alike redaction refl (
    Alike.objects (
      AlikeFields.secret (text "Token") refl (
        AlikeFields.open_field (text "user") (Alike.same (string (text "alice")))
          AlikeFields.no_fields)))

redact_value_twice_example :
    redact_value (redact_value (login (text "s3cret")) redaction) redaction
    ≡ redact_value (login (text "s3cret")) redaction
redact_value_twice_example = redact_value_twice redaction (login (text "s3cret"))

abbrev plain_files : FileSystem
plain_files = record {
  canonical = λ path. ok path;
  is_dir = λ path. true;
  is_file = λ path. true;
  path_exists = λ path. true;
}

abbrev home_tool : Text → QualifiedTool
home_tool name = record { server = text "home"; tool = name }

abbrev grant_of : Text → RelativeGrant
grant_of name = record { components = name ∷ [] }

abbrev minimal_policy : ResolvedAccessPolicy
minimal_policy = record {
  mode = Grant.strict;
  allowed_builtins =
      home_tool (text "list") ∷ home_tool (text "read") ∷ home_tool (text "write") ∷ [];
  home_read = grant_of (text "in") ∷ grant_of (text "out") ∷ [];
  home_write = grant_of (text "out") ∷ [];
  workspace = none;
  input_roots = [];
  programs = [];
  max_args = 32;
  max_arg_chars = 4096;
  max_output_chars = 200000;
  max_timeout_ms = 120000;
  max_processes = 32;
}

resolve_access_policy-IsSafe_example :
    ((AccessModeField.strict ≡ AccessModeField.legacy)
      × (grants_are_default minimal_profile ≡ true)
      × (minimal_policy ≡ legacy_policy))
    ⊎ ((AccessModeField.strict ≡ AccessModeField.strict)
        × IsSafe plain_files (text "/etc") minimal_policy)
unfolding resolve_access_policy resolve_strict resolve_builtins ToolName.parse split_once trim
    contains_char is_known_builtin list_beq resolve_relative_grants parse_grant components
    resolve_workspace resolve_input_roots resolve_run text_less
resolve_access_policy-IsSafe_example =
    resolve_access_policy-IsSafe plain_files (text "/etc") minimal_profile minimal_policy refl

home_policy-DeclaredFor_example : DeclaredFor (text "out" ∷ []) (text "out/a")
unfolding resolve_access_policy resolve_strict resolve_builtins ToolName.parse split_once trim
    contains_char is_known_builtin list_beq resolve_relative_grants parse_grant components
    resolve_workspace resolve_input_roots resolve_run text_less home_policy allows_relative
    relative_components
home_policy-DeclaredFor_example =
    home_policy-DeclaredFor plain_files (text "/etc") minimal_profile minimal_policy (text "out/a")
      refl refl refl

abbrev is_letter : ℕ → Bool
is_letter c = within b'a' b'z' c || within b'0' b'9' c

abbrev no_control : ℕ → Bool
no_control c = within 0 31 c

validate_agent_id-components_example : components (text "agent 1") ≡ normal (text "agent 1") ∷ []
unfolding validate_agent_id list_beq
validate_agent_id-components_example =
    validate_agent_id-components is_letter no_control (text "agent 1") refl refl

-- The name `.` passes the check of a server's name, and names the directory of the agent.
dot_server :
    mcp_runtime_dir is_letter no_control (text "/p") (text "a") (text ".")
    ≡ ok (text "/p/.kuibysheff/mcp-runtime/a/.")
unfolding mcp_runtime_dir list_beq
dot_server = refl

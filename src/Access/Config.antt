-- ===== src/Access/Config.antt =====
-- The access policy as the configuration file declares it (src/access/config.rs).
use agent_kuibysheff.Common.{
  ℕ, Bool, true, false, ◌&&◌, Option, none, some, List, [], ◌∷◌, ◌==◌, nat_eq, is_empty, Text, text,
}

pub data AccessModeField : Type 0 where
  strict legacy : AccessModeField

pub record ToolsPolicyConfig : Type 0 where
  pub builtins : List Text

pub record HomeFsPolicyConfig : Type 0 where
  pub read : List Text
  pub write : List Text

pub record WorkspacePolicyConfig : Type 0 where
  pub root : Text
  pub read : List Text

pub record FilesystemPolicyConfig : Type 0 where
  pub home : HomeFsPolicyConfig
  pub workspace : Option WorkspacePolicyConfig
  pub input_roots : List Text

pub record ProgramPolicyConfig : Type 0 where
  pub name : Text
  pub executable : Text
  pub runtime_read_roots : List Text
  pub inherit_env : List Text
  pub allow_children : Bool

pub record RunPolicyConfig : Type 0 where
  pub programs : List ProgramPolicyConfig
  pub max_args : ℕ  -- usize
  pub max_arg_chars : ℕ  -- usize
  pub max_output_chars : ℕ  -- usize
  pub max_timeout_ms : ℕ  -- u64
  pub max_processes : ℕ  -- u32

pub record AccessPolicyConfig : Type 0 where
  pub mode : AccessModeField
  pub tools : ToolsPolicyConfig
  pub filesystem : FilesystemPolicyConfig
  pub run : RunPolicyConfig

abbrev pub default_run : RunPolicyConfig
default_run = record {
  programs = [];
  max_args = 32;
  max_arg_chars = 4096;
  max_output_chars = 200000;
  max_timeout_ms = 120000;
  max_processes = 32;
}

abbrev is_none : {A : Type 0} → Option A → Bool
is_none none = true
is_none (some a) = false

-- The comparisons with the defaults, field by field.
unfoldable pub grants_are_default : AccessPolicyConfig → Bool
grants_are_default c =
    is_empty c.tools.builtins
    && is_empty c.filesystem.home.read
    && is_empty c.filesystem.home.write
    && is_none c.filesystem.workspace
    && is_empty c.filesystem.input_roots
    && is_empty c.run.programs
    && c.run.max_args == default_run.max_args
    && c.run.max_arg_chars == default_run.max_arg_chars
    && c.run.max_output_chars == default_run.max_output_chars
    && c.run.max_timeout_ms == default_run.max_timeout_ms
    && c.run.max_processes == default_run.max_processes

-- What `init` and the import write.
abbrev pub minimal_profile : AccessPolicyConfig
minimal_profile = record {
  mode = strict;
  tools = record { builtins = text "home.list" ∷ text "home.read" ∷ text "home.write" ∷ [] };
  filesystem = record {
    home = record { read = text "in" ∷ text "out" ∷ []; write = text "out" ∷ [] };
    workspace = none;
    input_roots = [];
  };
  run = default_run;
}

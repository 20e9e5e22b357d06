-- ===== src/Access/Resolve/Outcome.antt =====
-- What a resolved access policy guarantees (src/access/mod.rs).
use agent_kuibysheff.Common.{
  ◌<◌, Bool, true, not, ◌&&◌, Option, none, some, List, [], ◌∷◌, ◌≡◌, refl, sym, ◌⊎◌, inl, inr,
  arith, nat_eq, list_eq, is_empty, all, map, contains, insert, Text, text, trim, Result, ok,
  >>=-eq-ok, Result-cases, Bool-cases, &&-eq-true,
}
use agent_kuibysheff.Access.Config.{
  AccessModeField, WorkspacePolicyConfig, ProgramPolicyConfig, RunPolicyConfig, AccessPolicyConfig,
  grants_are_default,
}
use agent_kuibysheff.Access.ToolName
use agent_kuibysheff.Access.ToolName.{QualifiedTool, tool_eq, tool_ord, qualified}
use agent_kuibysheff.Access.Registry.{is_known_builtin}
use agent_kuibysheff.Access.Paths.{path_contains_protected_segment}
use agent_kuibysheff.Access.Grant.{RelativeGrant, strict}
use agent_kuibysheff.Access.Validate.{
  AccessError, is_forbidden_inherit_env_key, check_builtins, check_inherit_env, check_programs,
  validate_run_limits,
}
use agent_kuibysheff.Access.Resolve.{
  FileSystem, ResolvedProgramPolicy, ResolvedWorkspacePolicy, ResolvedAccessPolicy, legacy_policy,
  collect_builtins, resolve_builtins, resolve_workspace, resolve_input_roots, resolve_program,
  resolve_programs, resolve_run, resolve_strict, resolve_access_policy, resolve_relative_grants,
  resolve_mode,
}

-- A key that a program may inherit: not empty, and none of the forbidden ones.
abbrev pub may_inherit : Text → Bool
may_inherit key = not (is_empty key) && not (is_forbidden_inherit_env_key key)

check_inherit_env-all :
    (alias : Text) (keys : List Text)
    → check_inherit_env alias keys ≡ ok tt
    → all may_inherit (map trim keys) ≡ true
unfolding check_inherit_env
check_inherit_env-all alias [] h = refl
check_inherit_env-all alias (key ∷ keys) h = ground (arith, check_inherit_env-all alias keys)

check_programs-all :
    (aliases : List Text) (programs : List ProgramPolicyConfig)
    → check_programs aliases programs ≡ ok tt
    → all (λ (p : ProgramPolicyConfig). all may_inherit (map trim p.inherit_env)) programs ≡ true
unfolding check_programs
check_programs-all aliases [] h = refl
check_programs-all aliases (program ∷ programs) h = ground (
  arith,
  check_inherit_env-all (trim program.name) program.inherit_env,
  check_programs-all (trim program.name ∷ aliases) programs,
)

all-insert :
    (p : QualifiedTool → Bool) (a : QualifiedTool) (xs : List QualifiedTool)
    → p a ≡ true
    → all p xs ≡ true
    → all p (insert a xs) ≡ true
unfolding insert
all-insert p a [] h k = rw h
all-insert p a (x ∷ xs) h k = ground (arith, all-insert p a xs)

abbrev pub is_known : QualifiedTool → Bool
is_known q = is_known_builtin (qualified q)

collect_builtins-all :
    (seen : List Text) (tools : List QualifiedTool) (raws : List Text) (r : List QualifiedTool)
    → check_builtins seen raws ≡ ok tt
    → all is_known tools ≡ true
    → ◌≡◌ {A = Result (List QualifiedTool) AccessError} (collect_builtins tools raws) (ok r)
    → all is_known r ≡ true
unfolding check_builtins collect_builtins
collect_builtins-all seen tools [] r h k p = let same : tools ≡ r = cc p in rw (← same) k
collect_builtins-all seen tools (raw ∷ raws) r h k p = elim (Result-cases (ToolName.parse raw)) [
  | inr (e, q) ↦ absurd (cc (rw (check_builtins, q) at h))
  | inl (tool, q) ↦ elim (Bool-cases (is_known tool)) [
    | inr other ↦ absurd (cc (rw (check_builtins, q, other) at h))
    | inl fine ↦ elim (Bool-cases (contains seen (qualified tool))) [
      | inl again ↦ absurd (cc (rw (check_builtins, q, fine, again) at h))
      | inr fresh ↦
          collect_builtins-all (qualified tool ∷ seen) (insert tool tools) raws r
            (rw (check_builtins, q, fine, fresh) at h) (all-insert is_known tool tools fine k)
            (rw (collect_builtins, q) at p)
    ]
  ]
]

abbrev pub fits_program : FileSystem → ResolvedProgramPolicy → Bool
fits_program fs p =
    not (is_empty p.alias) && fs.is_file p.executable && all may_inherit p.inherit_env

abbrev Positive : ResolvedAccessPolicy → Type 0
Positive p =
    (0 < p.max_args)
    × (0 < p.max_arg_chars)
    × (0 < p.max_output_chars)
    × (0 < p.max_timeout_ms)
    × (0 < p.max_processes)

validate_run_limits-pos :
    (run : RunPolicyConfig)
    → validate_run_limits run ≡ ok tt
    → (0 < run.max_args)
      × (0 < run.max_arg_chars)
      × (0 < run.max_output_chars)
      × (0 < run.max_timeout_ms)
      × (0 < run.max_processes)
unfolding validate_run_limits
validate_run_limits-pos run h = ground arith

strict_policy :
    AccessPolicyConfig
    → List QualifiedTool
    → List RelativeGrant
    → List RelativeGrant
    → Option ResolvedWorkspacePolicy
    → List Text
    → List ResolvedProgramPolicy
    → ResolvedAccessPolicy
strict_policy access tools read write workspace roots programs = record {
  mode = strict;
  allowed_builtins = tools;
  home_read = read;
  home_write = write;
  workspace = workspace;
  input_roots = roots;
  programs = programs;
  max_args = access.run.max_args;
  max_arg_chars = access.run.max_arg_chars;
  max_output_chars = access.run.max_output_chars;
  max_timeout_ms = access.run.max_timeout_ms;
  max_processes = access.run.max_processes;
}

module _ (fs : FileSystem) (config_dir : Text) where
  resolve_input_roots-all :
      (roots r : List Text)
      → ◌≡◌ {A = Result (List Text) AccessError} (resolve_input_roots fs config_dir roots) (ok r)
      → all fs.is_dir r ≡ true
  unfolding resolve_input_roots
  resolve_input_roots-all [] r p = let same : [] ≡ r = cc p in rw (← same) refl
  resolve_input_roots-all (root ∷ roots) r p =
      elim (Result-cases (resolve_input_roots fs config_dir roots)) [
        | inr (e, q) ↦ ground arith
        | inl (later, q) ↦ ground (arith, resolve_input_roots-all roots later q)
      ]

  resolve_program-fits :
      (program : ProgramPolicyConfig) (r : ResolvedProgramPolicy)
      → all may_inherit (map trim program.inherit_env) ≡ true
      → ◌≡◌ {A = Result ResolvedProgramPolicy AccessError}
          (resolve_program fs config_dir program)
          (ok r)
      → fits_program fs r ≡ true
  unfolding resolve_program
  resolve_program-fits program r h p = ground arith

  resolve_programs-all :
      (programs : List ProgramPolicyConfig) (r : List ResolvedProgramPolicy)
      → all (λ (p : ProgramPolicyConfig). all may_inherit (map trim p.inherit_env)) programs ≡ true
      → ◌≡◌ {A = Result (List ResolvedProgramPolicy) AccessError}
          (resolve_programs fs config_dir programs)
          (ok r)
      → all (λ (p : ResolvedProgramPolicy). fits_program fs p) r ≡ true
  unfolding resolve_programs
  resolve_programs-all [] r h p = let same : [] ≡ r = cc p in rw (← same) refl
  resolve_programs-all (program ∷ programs) r h p =
      let (own, others) =
        &&-eq-true (all may_inherit (map trim program.inherit_env))
          (all (λ (p : ProgramPolicyConfig). all may_inherit (map trim p.inherit_env)) programs)
          h in
      elim (Result-cases (resolve_program fs config_dir program)) [
        | inr (e, q) ↦ absurd (cc (rw (resolve_programs, q) at p))
        | inl (first, q) ↦ elim (Result-cases (resolve_programs fs config_dir programs)) [
          | inr (e, q') ↦ absurd (cc (rw (resolve_programs, q, q') at p))
          | inl (later, q') ↦
              let same : first ∷ later ≡ r = cc (rw (resolve_programs, q, q') at p) in
              rw (← same) (
                ground (
                  arith,
                  resolve_program-fits program first own q,
                  resolve_programs-all programs later others q',
                ))
        ]
      ]

  abbrev pub safe_workspace : Option ResolvedWorkspacePolicy → Bool
  safe_workspace none = true
  safe_workspace (some w) = fs.is_dir w.root && not (path_contains_protected_segment w.root)

  resolve_workspace-safe :
      (w : Option WorkspacePolicyConfig) (r : Option ResolvedWorkspacePolicy)
      → ◌≡◌ {A = Result (Option ResolvedWorkspacePolicy) AccessError}
          (resolve_workspace fs config_dir w)
          (ok r)
      → safe_workspace r ≡ true
  unfolding resolve_workspace
  resolve_workspace-safe none r p = let same : none ≡ r = cc p in rw (← same) refl
  resolve_workspace-safe (some w) r p = ground arith

  -- Every built-in tool is a known one; every program has an alias, is a file, and inherits only
  -- variables that may be inherited; the root of the workspace is a directory outside the protected
  -- store; the input roots are directories; and no limit is zero.
  abbrev pub IsSafe : ResolvedAccessPolicy → Type 0
  IsSafe p =
      (all is_known p.allowed_builtins ≡ true)
      × (all (λ (r : ResolvedProgramPolicy). fits_program fs r) p.programs ≡ true)
      × (safe_workspace p.workspace ≡ true)
      × (all fs.is_dir p.input_roots ≡ true)
      × Positive p

  resolve_builtins-all :
      (access : AccessPolicyConfig) (r : List QualifiedTool)
      → ◌≡◌ {A = Result (List QualifiedTool) AccessError} (resolve_builtins access.tools) (ok r)
      → all is_known r ≡ true
  unfolding resolve_builtins
  resolve_builtins-all access r p = elim (Result-cases (check_builtins [] access.tools.builtins)) [
    | inr (e, q) ↦ absurd (cc (rw (resolve_builtins, q) at p))
    | inl (tt, q) ↦
        collect_builtins-all [] [] access.tools.builtins r q refl (rw (resolve_builtins, q) at p)
  ]

  resolve_run-all :
      (run : RunPolicyConfig) (r : List ResolvedProgramPolicy)
      → ◌≡◌ {A = Result (List ResolvedProgramPolicy) AccessError}
          (resolve_run fs config_dir run)
          (ok r)
      → (validate_run_limits run ≡ ok tt)
        × (all (λ (p : ResolvedProgramPolicy). fits_program fs p) r ≡ true)
  unfolding resolve_run
  resolve_run-all run r p = elim (Result-cases (validate_run_limits run)) [
    | inr (e, q) ↦ absurd (cc (rw (resolve_run, q) at p))
    | inl (tt, q) ↦ elim (Result-cases (check_programs [] run.programs)) [
      | inr (e, q') ↦ absurd (cc (rw (resolve_run, q, q') at p))
      | inl (tt, q') ↦ (
        q,
        resolve_programs-all run.programs r (check_programs-all [] run.programs q')
            (rw (resolve_run, q, q') at p),
      )
    ]
  ]

  resolve_strict-IsSafe :
      (access : AccessPolicyConfig) (p : ResolvedAccessPolicy)
      → ◌≡◌ {A = Result ResolvedAccessPolicy AccessError}
          (resolve_strict fs config_dir access)
          (ok p)
      → IsSafe p
  unfolding resolve_strict strict_policy
  resolve_strict-IsSafe access p h =
      let home = access.filesystem.home in
      let (tools, q1, h1) = >>=-eq-ok (resolve_builtins access.tools) _ h in
      let (read, q2, h2) =
        >>=-eq-ok (resolve_relative_grants home.read (text "filesystem.home.read")) _ h1 in
      let (write, q3, h3) =
        >>=-eq-ok (resolve_relative_grants home.write (text "filesystem.home.write")) _ h2 in
      let (workspace, q4, h4) =
        >>=-eq-ok (resolve_workspace fs config_dir access.filesystem.workspace) _ h3 in
      let (roots, q5, h5) =
        >>=-eq-ok (resolve_input_roots fs config_dir access.filesystem.input_roots) _ h4 in
      let (programs, q6, h6) = >>=-eq-ok (resolve_run fs config_dir access.run) _ h5 in
      let (limits, fit) = resolve_run-all access.run programs q6 in
      let same : strict_policy access tools read write workspace roots programs ≡ p = cc h6 in
      rw (← same) (
        resolve_builtins-all access tools q1,
        fit,
        resolve_workspace-safe access.filesystem.workspace workspace q4,
        resolve_input_roots-all access.filesystem.input_roots roots q5,
        validate_run_limits-pos access.run limits,
      )

  -- A policy that is resolved is one of two. In the mode `legacy` nothing else was declared, and it is
  -- the fixed legacy policy. In the mode `strict` it is safe: every built-in tool is a known one; every
  -- program has an alias, is a file, and inherits only variables that may be inherited; the root of
  -- the workspace is a directory outside the protected store; the input roots are directories; and no
  -- limit is zero.
  pub resolve_access_policy-IsSafe :
      (access : AccessPolicyConfig) (p : ResolvedAccessPolicy)
      → resolve_access_policy fs config_dir (some access) ≡ ok p
      → ((access.mode ≡ AccessModeField.legacy)
          × (grants_are_default access ≡ true)
          × (p ≡ legacy_policy))
        ⊎ ((access.mode ≡ AccessModeField.strict) × IsSafe p)
  unfolding resolve_access_policy
  resolve_access_policy-IsSafe access p h = by_mode access.mode refl h
    where
      by_mode :
          (mode : AccessModeField)
          → access.mode ≡ mode
          → resolve_mode fs config_dir access mode ≡ ok p
          → ((access.mode ≡ AccessModeField.legacy)
              × (grants_are_default access ≡ true)
              × (p ≡ legacy_policy))
            ⊎ ((access.mode ≡ AccessModeField.strict) × IsSafe p)
      by_mode AccessModeField.strict e h = inr (e, resolve_strict-IsSafe access p h)
      by_mode AccessModeField.legacy e h = elim (Bool-cases (grants_are_default access)) [
        | inl default ↦
            let same : legacy_policy ≡ p = cc (rw default at h) in inl (e, default, sym same)
        | inr mixed ↦ absurd (cc (rw mixed at h))
      ]

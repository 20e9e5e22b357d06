-- ===== src/Access/Gate/Denial.antt =====
-- What the gate keeps from the handlers.
use mathlib.Core.List.{Memᴰ}
use agent_kuibysheff.Common.{
  ◌≡◌, refl, sym, ◌∙◌, ◌⊎◌, inl, inr, Bool, true, false, ◌&&◌, ◌||◌, List, [], ◌∷◌, ◌++◌, arith,
  ==_sound, nat_eq, list_eq, contains, Bool-cases, Text, ok, err,
}
use agent_kuibysheff.Access.ToolName
use agent_kuibysheff.Access.ToolName.{QualifiedTool, tool_eq, qualified, new-IsQualified}
use agent_kuibysheff.Access.Registry.{is_builtin_server}
use agent_kuibysheff.Access.Policy.{
  EffectiveToolPolicy, known, compile, grant_profile_skills, allows, allows_server_tool,
}
use agent_kuibysheff.Access.Policy.Members.{
  allows-compile, allows-grant_profile_skills, profile_tool,
}
use agent_kuibysheff.Access.Gate.{ToolExecutor, policy, policy_call, validate_mcp_names}

-- The server of every tool is one of the names.
abbrev pub ServersAmong : List Text → List QualifiedTool → Type 0
ServersAmong names [] = Unit
ServersAmong names (q ∷ qs) = Memᴰ q.server names × ServersAmong names qs

not_reserved :
    (names : List Text) (name : Text)
    → validate_mcp_names names ≡ ok tt
    → Memᴰ name names
    → is_builtin_server name ≡ false
unfolding validate_mcp_names
not_reserved [] name h d = elim d [ ]
not_reserved (n ∷ names) name h (Memᴰ.head e) = rw e (ground arith)
not_reserved (n ∷ names) name h (Memᴰ.tail d) = not_reserved names name (ground arith) d

not_mcp :
    (names : List Text) (mcp : List QualifiedTool) (q : QualifiedTool)
    → validate_mcp_names names ≡ ok tt
    → ServersAmong names mcp
    → is_builtin_server q.server ≡ true
    → contains mcp q ≡ false
unfolding contains
not_mcp names [] q v s b = refl
not_mcp names (t ∷ ts) q v s b =
    ground
      (arith, tool_eq.equal_iff t q, not_reserved names t.server v s.0, not_mcp names ts q v s.1 b)

-- What a call of a built-in tool needs to pass the gate: the tool is a known built-in that the
-- access policy and the skills name, or one of the two skill tools.
abbrev pub Granted : List QualifiedTool → List QualifiedTool → QualifiedTool → Type 0
Granted access skills q =
    ((contains known q ≡ true) × (contains access q ≡ true) × (contains skills q ≡ true))
    ⊎ ((q ≡ profile_tool "read_skill") ⊎ (q ≡ profile_tool "list_skill"))

-- Either of two tests, or a third.
or_cases : (a b c : Bool) → (a || (b || c)) ≡ true → (a ≡ true) ⊎ ((b ≡ true) ⊎ (c ≡ true))
or_cases a b c h = ground arith

only_builtin :
    (m s k a : Bool)
    → (m && s || k && (a && s)) ≡ true
    → m ≡ false
    → (k ≡ true) × (a ≡ true) × (s ≡ true)
only_builtin m s k a h n = ground arith

builtin_grant :
    (access skills mcp : List QualifiedTool) (names : List Text) (q : QualifiedTool)
    → validate_mcp_names names ≡ ok tt
    → ServersAmong names mcp
    → is_builtin_server q.server ≡ true
    → allows (grant_profile_skills (compile access skills mcp)) q ≡ true
    → Granted access skills q
builtin_grant access skills mcp names q v s b h =
    elim (or_cases _ _ _ (sym (allows-grant_profile_skills (compile access skills mcp) q) ∙ h)) [
      | inl r ↦ inr (inl (sym (==_sound (profile_tool "read_skill") q r)))
      | inr (inl l) ↦ inr (inr (sym (==_sound (profile_tool "list_skill") q l)))
      | inr (inr c) ↦ inl (
          only_builtin _ _ _ _ (sym (allows-compile access skills mcp q) ∙ c)
            (not_mcp names mcp q v s b))
    ]

allows_server_tool-eq-true :
    (p : EffectiveToolPolicy) (server tool : Text)
    → allows_server_tool p server tool ≡ true
    → allows p (record { server = server; tool = tool }) ≡ true
unfolding allows_server_tool allows ToolName.new
allows_server_tool-eq-true p server tool h = ground arith

module _ {W V E : Type 0} (inner : ToolExecutor W V E) where
  pub policy_call_denied :
      (p : EffectiveToolPolicy) (server tool : Text) (arguments : V) (w : W)
      → allows_server_tool p server tool ≡ false
      → policy_call inner p server tool arguments w ≡ (err (policy (server ++ b'.' ∷ tool)), w)
  unfolding policy_call
  policy_call_denied p server tool arguments w h = rw h

  pub policy_call_builtin :
      (access skills mcp : List QualifiedTool) (names : List Text) (server tool : Text)
      (arguments : V) (w : W)
      → validate_mcp_names names ≡ ok tt
      → ServersAmong names mcp
      → is_builtin_server server ≡ true
      → Granted access skills (record { server = server; tool = tool })
        ⊎ (policy_call inner
              (grant_profile_skills (compile access skills mcp))
              server
              tool
              arguments
              w
            ≡ (err (policy (server ++ b'.' ∷ tool)), w))
  policy_call_builtin access skills mcp names server tool arguments w v s b =
      elim (Bool-cases (allows_server_tool p server tool)) [
        | inr no_grant ↦ inr (policy_call_denied p server tool arguments w no_grant)
        | inl granted ↦ inl (
            builtin_grant access skills mcp names (record { server = server; tool = tool }) v s b
              (allows_server_tool-eq-true p server tool granted))
      ]
    where
      p : EffectiveToolPolicy
      p = grant_profile_skills (compile access skills mcp)

-- ===== src/Access/Policies/Declared.antt =====
-- From the declared grants to the check of a path (src/access/mod.rs, src/access/paths.rs).
use agent_kuibysheff.Common.{
  ◌≡◌, refl, sym, ap, ◌∙◌, inl, inr, arith, some, List, [], ◌∷◌, if◌then◌else◌, Text, text, Result,
  ok, >>=-eq-ok, Result-cases,
}
use mathlib.Core.List.{Memᴰ}
use agent_kuibysheff.Access.Config.{AccessModeField, AccessPolicyConfig}
use agent_kuibysheff.Access.Grant.{
  AccessMode, legacy, RelativeGrant, parse_grant, relative_components, strict, legacy_scope,
  strict_scope, is_legacy, allows_relative,
}
use agent_kuibysheff.Access.Grant.Cover.{Begins, allows_relative-Begins}
use agent_kuibysheff.Access.Validate.{AccessError}
use agent_kuibysheff.Access.Resolve.{
  FileSystem, ResolvedAccessPolicy, resolve_relative_grants, resolve_builtins, resolve_workspace,
  resolve_input_roots, resolve_run, resolve_strict, resolve_mode, resolve_access_policy,
}
use agent_kuibysheff.Access.Policies.{HomeFsPolicy, with_scopes, home_policy}

resolve_relative_grants_mem :
    (raws : List Text) (grant_field : Text) (gs : List RelativeGrant) (g : RelativeGrant)
    → ◌≡◌ {A = Result (List RelativeGrant) AccessError}
        (resolve_relative_grants raws grant_field)
        (ok gs)
    → Memᴰ g gs
    → (raw : Text) × Memᴰ raw raws × (parse_grant raw ≡ ok g)
unfolding resolve_relative_grants
resolve_relative_grants_mem [] grant_field [] g p m = elim m [ ]
resolve_relative_grants_mem [] grant_field (x ∷ gs) g p m = cc
resolve_relative_grants_mem (raw ∷ raws) grant_field [] g p m = elim m [ ]
resolve_relative_grants_mem (raw ∷ raws) grant_field (x ∷ gs) g p m =
    elim (Result-cases (parse_grant raw)) [
      | inr (e, q) ↦ absurd (cc (rw (resolve_relative_grants, q) at p))
      | inl (own, q) ↦ elim (Result-cases (resolve_relative_grants raws grant_field)) [
        | inr (e, q') ↦ absurd (cc (rw (resolve_relative_grants, q, q') at p))
        | inl (later, q') ↦
            let p' : ok (own ∷ later) ≡ ok (x ∷ gs) = rw (resolve_relative_grants, q, q') at p in
            let first : own ≡ x = cc p' in
            let rest : later ≡ gs = cc p' in
            by_place own gs (resolve_relative_grants_mem raws grant_field gs g (q' ∙ ap ok rest)) q
              first m
      ]
    ]
  where
    by_place :
        (own : RelativeGrant) (gs : List RelativeGrant)
        → (Memᴰ g gs → (r : Text) × Memᴰ r raws × (parse_grant r ≡ ok g))
        → parse_grant raw ≡ ok own
        → own ≡ x
        → Memᴰ g (x ∷ gs)
        → (r : Text) × Memᴰ r (raw ∷ raws) × (parse_grant r ≡ ok g)
    by_place own gs later q first (Memᴰ.head e) = (raw, Memᴰ.head refl, q ∙ ap ok (first ∙ sym e))
    by_place own gs later q first (Memᴰ.tail t) =
        let (r, place, reads) = later t in (r, Memᴰ.tail place, reads)

-- A declared grant begins the components of the path.
abbrev pub DeclaredFor : List Text → Text → Type 0
DeclaredFor raws path =
    (cs : List Text) × (relative_components path ≡ ok cs)
    × (raw : Text) × Memᴰ raw raws
    × (g : RelativeGrant) × (parse_grant raw ≡ ok g)
    × Begins g cs

if-strict :
    (mode : AccessMode) (x y : HomeFsPolicy)
    → mode ≡ strict
    → (if is_legacy mode then x else y).write ≡ y.write
if-strict legacy x y is_strict = cc
if-strict strict x y is_strict = refl

module _ (fs : FileSystem) (config_dir : Text) where
  -- The grants of a strict policy are those of the configuration.
  resolve_strict-home_write :
      (access : AccessPolicyConfig) (p : ResolvedAccessPolicy)
      → ◌≡◌ {A = Result ResolvedAccessPolicy AccessError}
          (resolve_strict fs config_dir access)
          (ok p)
      → (p.mode ≡ strict)
        × (resolve_relative_grants access.filesystem.home.write (text "filesystem.home.write")
            ≡ ok p.home_write)
  unfolding resolve_strict
  resolve_strict-home_write access p h =
      let home = access.filesystem.home in
      let (tools, q1, h1) = >>=-eq-ok (resolve_builtins access.tools) _ h in
      let (read, q2, h2) =
        >>=-eq-ok (resolve_relative_grants home.read (text "filesystem.home.read")) _ h1 in
      let (write, q3, h3) =
        >>=-eq-ok (resolve_relative_grants home.write (text "filesystem.home.write")) _ h2 in
      let (workspace, q4, h4) =
        >>=-eq-ok (resolve_workspace fs config_dir access.filesystem.workspace) _ h3 in
      let (roots, q5, h5) =
        >>=-eq-ok (resolve_input_roots fs config_dir access.filesystem.input_roots) _ h4 in
      let (programs, q6, h6) = >>=-eq-ok (resolve_run fs config_dir access.run) _ h5 in
      let same : write ≡ p.home_write = ground (arith, h6) in
      let mode : p.mode ≡ strict = ground (arith, h6) in (mode, q3 ∙ ap ok same)

  -- From the configuration to a write: if a declared policy in the mode `strict` is resolved, and the
  -- policy of the home tools that is derived from it allows a write to a path, then one of the grants
  -- declared under `filesystem.home.write` begins the components of that path.
  pub home_policy-DeclaredFor :
      (access : AccessPolicyConfig) (p : ResolvedAccessPolicy) (path : Text)
      → access.mode ≡ AccessModeField.strict
      → resolve_access_policy fs config_dir (some access) ≡ ok p
      → allows_relative (home_policy p).write path ≡ ok tt
      → DeclaredFor access.filesystem.home.write path
  unfolding resolve_access_policy home_policy
  home_policy-DeclaredFor access p path is_strict h allowed =
      let h' : resolve_mode fs config_dir access AccessModeField.strict ≡ ok p =
        ap (resolve_mode fs config_dir access) (sym is_strict) ∙ h in
      let (mode, write) = resolve_strict-home_write access p h' in
      let scoped : allows_relative (strict_scope p.home_write) path ≡ ok tt =
        ap (λ scope. allows_relative scope path)
          (sym (
            if-strict p.mode (with_scopes p legacy_scope legacy_scope)
              (with_scopes p (strict_scope p.home_read) (strict_scope p.home_write)) mode))
        ∙ allowed in
      let (cs, reads, g, member, begins) = allows_relative-Begins p.home_write path scoped in
      let (raw, declared, parsed) =
        resolve_relative_grants_mem access.filesystem.home.write (text "filesystem.home.write")
          p.home_write g write member in
      (cs, reads, raw, declared, g, parsed, begins)

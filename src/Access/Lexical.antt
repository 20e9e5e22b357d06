-- ===== src/Access/Lexical.antt =====
-- Paths that are joined and normalized without the file system (src/project_paths.rs), and the
-- check that a workspace does not expose the protected store (src/access/protected.rs).
use agent_kuibysheff.Common.{
  Bool, true, false, ◌||◌, none, some, List, [], ◌∷◌, ◌++◌, ◌==◌, nat_eq, list_eq, if◌then◌else◌,
  is_empty, Text, text, trim, starts_with, contains_text, Result, ok, err,
}
use mathlib.Core.List.{reverse}
use agent_kuibysheff.Access.Paths.{
  Component, root_dir, cur_dir, parent_dir, normal, slash, components, is_absolute, is_within_root,
  strip_components,
}

abbrev ends_with_slash : Text → Bool
ends_with_slash t = elim (reverse t) [ [] ↦ false | c ∷ cs ↦ c == slash ]

-- `Path::join`
abbrev pub join : Text → Text → Text
join base path =
    if is_absolute path || is_empty base
    then path
    else if ends_with_slash base
    then base ++ path
    else base ++ slash ∷ path

-- `PathBuf::pop` on the reversed components: the root and the empty path stay.
abbrev pop : List Component → List Component
pop [] = []
pop (root_dir ∷ []) = root_dir ∷ []
pop (c ∷ cs) = cs

-- The loop of `normalize_lexically`, over the reversed result.
unfoldable pub normalize_from : List Component → List Component → List Component
normalize_from out [] = reverse out
normalize_from out (cur_dir ∷ cs) = normalize_from out cs
normalize_from out (parent_dir ∷ cs) = normalize_from (pop out) cs
normalize_from out (root_dir ∷ cs) = normalize_from (root_dir ∷ []) cs
normalize_from out (normal s ∷ cs) = normalize_from (normal s ∷ out) cs

unfoldable pub normalize_lexically : Text → List Component
unfolding normalize_from components
normalize_lexically path = normalize_from [] (components path)

unfoldable pub path_is_within : Text → Text → Bool
unfolding normalize_lexically strip_components
path_is_within root path =
    elim (strip_components (normalize_lexically root) (normalize_lexically path)) [
      | none ↦ false
      | some rest ↦ true
    ]

abbrev pub protected_root : Text → Text
protected_root project_root = join (join project_root (text ".kuibysheff")) (text "protected")

-- `is_protected_path`
unfoldable pub is_protected_path : Text → Text → Bool
unfolding path_is_within
is_protected_path project_root path = path_is_within (protected_root project_root) path

pub data ProtectedError : Type 0 where
  -- the protected root that the message shows
  root_protected : Text → ProtectedError
  exposes_protected : ProtectedError
  -- "must not grant protected store path", with the grant
  grants_protected : Text → ProtectedError

abbrev pub names_protected : Text → Bool
names_protected trimmed =
    trimmed == text "protected"
    || starts_with (text "protected/") trimmed
    || starts_with (text ".kuibysheff/protected") trimmed
    || contains_text (text "/protected/") trimmed

-- The loop over the grants; `Path::starts_with` and `strip_prefix` compare components.
unfoldable pub check_read_grants : Text → Text → List Text → Result (Unit {0}) ProtectedError
unfolding trim starts_with contains_text is_within_root
check_read_grants project_root workspace_root [] = ok tt
check_read_grants project_root workspace_root (grant ∷ grants) =
    let trimmed = trim grant in
    let later = check_read_grants project_root workspace_root grants in
    if is_empty trimmed || trimmed == text "."
    then if is_within_root workspace_root (protected_root project_root)
      then err exposes_protected
      else later
    else if names_protected trimmed
    then err (grants_protected trimmed)
    else later

unfoldable pub validate_workspace_excludes_protected :
    Text → Text → List Text → Result (Unit {0}) ProtectedError
unfolding is_protected_path check_read_grants
validate_workspace_excludes_protected project_root workspace_root read_grants =
    if is_protected_path project_root workspace_root
    then err (root_protected (protected_root project_root))
    else check_read_grants project_root workspace_root read_grants

-- ===== src/Access/Grant.antt =====
-- src/access/paths.rs and `RelativeGrant` of src/access/mod.rs: relative grants and the paths that
-- they cover.
pub mod Cover
use agent_kuibysheff.Common.{
  ℕ, Bool, true, false, not, ◌&&◌, ◌||◌, Option, none, some, List, [], ◌∷◌, ◌++◌, arith, ◌==◌,
  nat_eq, list_eq, Eq, if◌then◌else◌, is_empty, any, ltb, length, take, Text, text, trim, Result,
  ok, err, ◌>>=◌, ◌>>◌,
}
use agent_kuibysheff.Access.Paths.{
  Component, root_dir, cur_dir, parent_dir, normal, components, is_absolute, is_within_root,
  path_contains_protected_segment,
}

-- The messages, each with the path or the grant that it names.
pub data PathError : Type 0 where
  must_be_relative contains_parent empty_segment : Text → PathError
  -- the operation and the path
  denied : Text → PathError
  protected : PathError
  outside_input_roots : Text → PathError

-- The loop over the components, in `relative_components` and in `RelativeGrant::parse`.
unfoldable pub collect : Text → List Component → Result (List Text) PathError
collect path [] = ok []
collect path (normal part ∷ cs) =
    if is_empty part
    then err (empty_segment path)
    else (do rest ← collect path cs; ok (part ∷ rest))
collect path (cur_dir ∷ cs) = collect path cs
collect path (parent_dir ∷ cs) = err (contains_parent path)
collect path (root_dir ∷ cs) = err (must_be_relative path)

-- `path == Path::new(".")`, which compares components.
abbrev is_current : List Component → Bool
is_current (cur_dir ∷ []) = true
is_current _ = false

unfoldable pub relative_components : Text → Result (List Text) PathError
unfolding collect
relative_components path =
    if is_empty path || is_current (components path)
    then ok []
    else if is_absolute path
    then err (must_be_relative path)
    else collect path (components path)

pub record RelativeGrant : Type 0 where
  pub components : List Text

-- `RelativeGrant::parse`
unfoldable pub parse_grant : Text → Result RelativeGrant PathError
unfolding collect
parse_grant raw =
    let trimmed = trim raw in
    if is_empty trimmed || trimmed == text "."
    then ok (record { components = [] })
    else if is_absolute trimmed
    then err (must_be_relative trimmed)
    else (do cs ← collect trimmed (components trimmed); ok (record { components = cs }))

unfoldable pub grant_covers : RelativeGrant → List Text → Bool
grant_covers g relative =
    if is_empty g.components
    then true
    else if ltb (length relative) (length g.components)
    then false
    else take (length g.components) relative == g.components

unfoldable pub any_grant_covers : List RelativeGrant → List Text → Bool
unfolding grant_covers
any_grant_covers grants relative = any (λ g. grant_covers g relative) grants

pub data AccessMode : Type 0 where
  legacy strict : AccessMode

pub record PathGrantScope : Type 0 where
  pub mode : AccessMode
  pub grants : List RelativeGrant

abbrev pub legacy_scope : PathGrantScope
legacy_scope = record { mode = legacy; grants = [] }

abbrev pub strict_scope : List RelativeGrant → PathGrantScope
strict_scope grants = record { mode = strict; grants = grants }

abbrev pub deny_all : PathGrantScope
deny_all = strict_scope []

abbrev pub is_legacy : AccessMode → Bool
is_legacy legacy = true
is_legacy strict = false

-- `allows_relative`; the operation is part of the message only.
unfoldable pub allows_relative : PathGrantScope → Text → Result (Unit {0}) PathError
unfolding any_grant_covers
allows_relative scope relative = do
  cs ← relative_components relative
  if is_legacy scope.mode || any_grant_covers scope.grants cs then ok tt else err (denied relative)

pub record InputFilesPolicy : Type 0 where
  pub unrestricted : Bool
  pub roots : List Text

-- `is_denied_protected_path(None, canonical)` is `path_contains_protected_segment`.
unfoldable pub allows_canonical_file : InputFilesPolicy → Text → Result (Unit {0}) PathError
allows_canonical_file p canonical =
    if path_contains_protected_segment canonical
    then err protected
    else if p.unrestricted
    then ok tt
    else if any (λ root. is_within_root root canonical) p.roots
    then ok tt
    else err (outside_input_roots canonical)

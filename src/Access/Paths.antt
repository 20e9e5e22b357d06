-- ===== src/Access/Paths.antt =====
-- `std::path` as the program uses it on Linux: a path is its text, and its components are what
-- stands between the slashes. `is_within_root` and the protected-store test of
-- src/project_paths.rs work on components.
use agent_kuibysheff.Common.{
  ℕ, Bool, true, false, ◌&&◌, ◌||◌, Option, none, some, List, [], ◌∷◌, ◌==◌, nat_eq, list_eq,
  if◌then◌else◌, is_empty, String, Text, text,
}

pub data Component : Type 0 where
  root_dir cur_dir parent_dir : Component
  normal : Text → Component

abbrev pub slash : ℕ
slash = b'/'

abbrev push_head : ℕ → List Text → List Text
push_head c [] = (c ∷ []) ∷ []
push_head c (s ∷ ss) = (c ∷ s) ∷ ss

-- What stands between the slashes.
unfoldable pub segments : Text → List Text
segments [] = [] ∷ []
segments (c ∷ cs) = let rest = segments cs in if c == slash then [] ∷ rest else push_head c rest

abbrev pub is_absolute : Text → Bool
is_absolute [] = false
is_absolute (c ∷ cs) = c == slash

-- Empty segments and `.` are skipped.
unfoldable pub classify : List Text → List Component
classify [] = []
classify (s ∷ ss) =
    let rest = classify ss in
    if is_empty s || s == text "."
    then rest
    else if s == text ".."
    then parent_dir ∷ rest
    else normal s ∷ rest

-- A `.` counts at the beginning of a relative path.
abbrev classify_first : List Text → List Component
classify_first [] = []
classify_first (s ∷ ss) = if s == text "." then cur_dir ∷ classify ss else classify (s ∷ ss)

-- `Path::components`
unfoldable pub components : Text → List Component
unfolding segments classify
components p =
    if is_absolute p then root_dir ∷ classify (segments p) else classify_first (segments p)

abbrev same_component : Component → Component → Bool
same_component root_dir root_dir = true
same_component cur_dir cur_dir = true
same_component parent_dir parent_dir = true
same_component (normal a) (normal b) = a == b
same_component _ _ = false

-- `Path::strip_prefix`, on components.
unfoldable pub strip_components : List Component → List Component → Option (List Component)
strip_components [] cs = some cs
strip_components (r ∷ rs) [] = none
strip_components (r ∷ rs) (c ∷ cs) = if same_component r c then strip_components rs cs else none

abbrev is_some : {A : Type 0} → Option A → Bool
is_some none = false
is_some (some a) = true

-- `is_within_root`
unfoldable pub is_within_root : Text → Text → Bool
unfolding strip_components
is_within_root root candidate = is_some (strip_components (components root) (components candidate))

abbrev is_named : String → Component → Bool
is_named name c = same_component (normal (text name)) c

-- `path_contains_protected_segment`, on the components.
unfoldable pub has_protected_pair : List Component → Bool
has_protected_pair [] = false
has_protected_pair (a ∷ []) = false
has_protected_pair (a ∷ b ∷ cs) =
    is_named ".kuibysheff" a && is_named "protected" b || has_protected_pair (b ∷ cs)

unfoldable pub path_contains_protected_segment : Text → Bool
unfolding has_protected_pair components
path_contains_protected_segment p = has_protected_pair (components p)

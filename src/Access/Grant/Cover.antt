-- ===== src/Access/Grant/Cover.antt =====
-- A grant covers exactly the paths that its components begin.
use agent_kuibysheff.Common.{
  ◌≡◌, refl, sym, ◌∙◌, ap, ◌⊎◌, inl, inr, true, false, List, [], ◌∷◌, ◌++◌, arith, ◌==◌, ==_sound,
  ==_refl, nat_eq, list_eq, is_empty, any, ltb, length, take, drop, take-append-drop, length-append,
  Bool-cases, Result-cases, Text, ok,
}
use mathlib.Core.List.{Memᴰ}
use agent_kuibysheff.Access.Paths.{is_within_root, path_contains_protected_segment}
use agent_kuibysheff.Access.Grant.{
  RelativeGrant, grant_covers, any_grant_covers, relative_components, strict_scope, allows_relative,
  InputFilesPolicy, allows_canonical_file,
}

-- The grant's components, then any others.
abbrev pub Begins : RelativeGrant → List Text → Type 0
Begins g cs = (rest : List Text) × (cs ≡ g.components ++ rest)

take-append_length : {A : Type 0} (xs ys : List A) → take (length xs) (xs ++ ys) ≡ xs
take-append_length [] ys = refl
take-append_length (x ∷ xs) ys = ap (◌∷◌ x) (take-append_length xs ys)

grant_covers-Begins : (g : RelativeGrant) (cs : List Text) → grant_covers g cs ≡ true → Begins g cs
unfolding grant_covers
grant_covers-Begins g cs h = elim (Bool-cases (is_empty g.components)) [
  | inl e ↦ (cs, ground (arith, e))
  | inr n ↦
      let same : (take (length g.components) cs == g.components) ≡ true = ground (arith, n) in
      (
        drop (length g.components) cs,
        sym (take-append-drop (length g.components) cs)
            ∙ ap (λ t. t ++ drop (length g.components) cs) (==_sound _ _ same),
      )
]

ltb_short : (xs ys : List Text) → ltb (length (xs ++ ys)) (length xs) ≡ false
ltb_short xs ys = ground (arith, length-append xs ys)

Begins-grant_covers : (g : RelativeGrant) (cs : List Text) → Begins g cs → grant_covers g cs ≡ true
unfolding grant_covers
Begins-grant_covers g cs (rest, e) = rw e (elim (Bool-cases (is_empty g.components)) [
  | inl y ↦ ground (arith, y)
  | inr n ↦
      rw (n, ltb_short g.components rest, take-append_length g.components rest)
        (==_refl g.components)
])

any_grant_covers-Begins :
    (gs : List RelativeGrant) (cs : List Text)
    → any_grant_covers gs cs ≡ true
    → (g : RelativeGrant) × Memᴰ g gs × Begins g cs
unfolding any_grant_covers
any_grant_covers-Begins [] cs h = cc
any_grant_covers-Begins (g ∷ gs) cs h = elim (Bool-cases (grant_covers g cs)) [
  | inl e ↦ (g, Memᴰ.head refl, grant_covers-Begins g cs e)
  | inr n ↦ let (g', d, b) = any_grant_covers-Begins gs cs (rw n at h) in (g', Memᴰ.tail d, b)
]

Begins-any_grant_covers :
    (gs : List RelativeGrant) (cs : List Text) (g : RelativeGrant)
    → Memᴰ g gs
    → Begins g cs
    → any_grant_covers gs cs ≡ true
unfolding any_grant_covers
Begins-any_grant_covers [] cs g d b = elim d [ ]
Begins-any_grant_covers (x ∷ gs) cs g (Memᴰ.head e) b = rw (sym e, Begins-grant_covers g cs b)
Begins-any_grant_covers (x ∷ gs) cs g (Memᴰ.tail d) b =
    ground (arith, Begins-any_grant_covers gs cs g d b)

-- A path that a strict scope allows has relative components, and one of the scope's grants begins
-- them.
pub allows_relative-Begins :
    (gs : List RelativeGrant) (path : Text)
    → allows_relative (strict_scope gs) path ≡ ok tt
    → (cs : List Text) × (relative_components path ≡ ok cs)
      × (g : RelativeGrant) × Memᴰ g gs
      × Begins g cs
unfolding allows_relative
allows_relative-Begins gs path h = elim (Result-cases (relative_components path)) [
  | inl (cs, e) ↦ elim (Bool-cases (any_grant_covers gs cs)) [
    | inl y ↦ let (g, d, b) = any_grant_covers-Begins gs cs y in (cs, e, g, d, b)
    | inr n ↦ ground (arith, rw (e, n) at h)
  ]
  | inr (x, e) ↦ ground (arith, rw e at h)
]

-- A path whose components a grant begins is allowed by every scope that holds the grant.
pub Begins-allows_relative :
    (gs : List RelativeGrant) (path : Text) (cs : List Text) (g : RelativeGrant)
    → relative_components path ≡ ok cs
    → Memᴰ g gs
    → Begins g cs
    → allows_relative (strict_scope gs) path ≡ ok tt
unfolding allows_relative
Begins-allows_relative gs path cs g e d b = rw (e, Begins-any_grant_covers gs cs g d b) refl

pub allows_canonical_file_root :
    (p : InputFilesPolicy) (canonical : Text)
    → allows_canonical_file p canonical ≡ ok tt
    → (path_contains_protected_segment canonical ≡ false)
      × ((p.unrestricted ≡ true) ⊎ (any (λ root. is_within_root root canonical) p.roots ≡ true))
unfolding allows_canonical_file
allows_canonical_file_root p canonical h =
    elim (Bool-cases (path_contains_protected_segment canonical)) [
      | inl y ↦ ground (arith, rw y at h)
      | inr n ↦ elim (Bool-cases p.unrestricted) [
        | inl y ↦ (n, inl y)
        | inr m ↦ elim (Bool-cases (any (λ root. is_within_root root canonical) p.roots)) [
          | inl y ↦ (n, inr y)
          | inr k ↦ ground (arith, rw (n, m, k) at h)
        ]
      ]
    ]

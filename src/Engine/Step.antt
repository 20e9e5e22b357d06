-- ===== src/Engine/Step.antt =====
-- The effects of the loop: a step changes the state and goes on with a value, leaves the loop
-- (`break`), or returns from the run with an error.

pub data Flow (S E A : Type 0) : Type 0 where
  go : A → S → Flow S E A
  halt : S → Flow S E A
  fail : E → S → Flow S E A

abbrev pub Step : Type 0 → Type 0 → Type 0 → Type 0
Step S E A = S → Flow S E A

module _ {S E : Type 0} where
  infixl 5 ◌>>=◌ ◌>>◌
  abbrev continue_with : {A B : Type 0} → (A → Step S E B) → Flow S E A → Flow S E B
  continue_with f (go a s) = f a s
  continue_with f (halt s) = halt s
  continue_with f (fail e s) = fail e s

  unfoldable pub ◌>>=◌ : {A B : Type 0} → Step S E A → (A → Step S E B) → Step S E B
  (m >>= f) s = continue_with f (m s)

  abbrev pub ◌>>◌ : {B : Type 0} → Step S E (Unit {0}) → Step S E B → Step S E B
  m >> k = m >>= λ _. k

  abbrev pub give : {A : Type 0} → A → Step S E A
  give a s = go a s

  abbrev pub modify : (S → S) → Step S E (Unit {0})
  modify f s = go tt (f s)

  abbrev pub throw : {A : Type 0} → E → Step S E A
  throw e s = fail e s

  -- The state that a flow ends in, whichever way it goes.
  abbrev pub After : {A : Type 0} → (S → Type 0) → Flow S E A → Type 0
  After P (go a s) = P s
  After P (halt s) = P s
  After P (fail e s) = P s

  -- A step that leads from the states of `P` to states of `Q`, however it ends.
  abbrev pub Leads : {A : Type 0} → (S → Type 0) → (S → Type 0) → Step S E A → Type 0
  Leads P Q m = (s : S) → P s → After Q (m s)

  abbrev pub Keeps : {A : Type 0} → (S → Type 0) → Step S E A → Type 0
  Keeps P m = Leads P P m

  After-continue_with :
      {A B : Type 0} (P Q : S → Type 0) (f : A → Step S E B) (m : Flow S E A)
      → After P m
      → ((s : S) → P s → Q s)
      → ((a : A) → Leads P Q (f a))
      → After Q (continue_with f m)
  After-continue_with P Q f (go a s) h weaken k = k a s h
  After-continue_with P Q f (halt s) h weaken k = weaken s h
  After-continue_with P Q f (fail e s) h weaken k = weaken s h

  -- The same, as a type that names the step.
  pub record Preserves {A : Type 0} (P : S → Type 0) (m : Step S E A) : Type 0 where
    pub at : Keeps P m

  -- What both parts keep, the sequence keeps.
  pub >>=-Preserves :
      {A B : Type 0} {P : S → Type 0} {m : Step S E A} {f : A → Step S E B}
      → Preserves P m
      → ((a : A) → Preserves P (f a))
      → Preserves P (m >>= f)
  unfolding ◌>>=◌
  >>=-Preserves {P = P} {m} {f} k l = record {
    at = λ s p. After-continue_with P P f (m s) (k.at s p) (λ s p. p) (λ a. (l a).at);
  }

  -- What holds where a flow goes on.
  abbrev pub Going : {A : Type 0} → (S → Type 0) → Flow S E A → Type 0
  Going Q (go a s) = Q s
  Going Q (halt s) = Unit {0}
  Going Q (fail e s) = Unit {0}

  continue_with-Going :
      {A B : Type 0} (P Q : S → Type 0) (f : A → Step S E B) (m : Flow S E A)
      → After P m
      → ((a : A) (s : S) → P s → Going Q (f a s))
      → Going Q (continue_with f m)
  continue_with-Going P Q f (go a s) p k = k a s p
  continue_with-Going P Q f (halt s) p k = tt
  continue_with-Going P Q f (fail e s) p k = tt

  pub >>=-Going :
      {A B : Type 0} (P Q : S → Type 0) (m : Step S E A) (f : A → Step S E B)
      → Preserves P m
      → ((a : A) (s : S) → P s → Going Q (f a s))
      → (s : S) → P s
      → Going Q ((m >>= f) s)
  unfolding ◌>>=◌
  >>=-Going P Q m f k l s p = continue_with-Going P Q f (m s) (k.at s p) l

  After-Going : {A : Type 0} (Q : S → Type 0) (x : Flow S E A) → After Q x → Going Q x
  After-Going Q (go a s) q = q
  After-Going Q (halt s) q = tt
  After-Going Q (fail e s) q = tt

  Going-continue_with :
      {A B : Type 0} (Q : S → Type 0) (f : A → Step S E B) (x : Flow S E A)
      → Going Q x
      → ((a : A) → Preserves Q (f a))
      → Going Q (continue_with f x)
  Going-continue_with Q f (go a s) q k = After-Going Q (f a s) ((k a).at s q)
  Going-continue_with Q f (halt s) q k = tt
  Going-continue_with Q f (fail e s) q k = tt

  -- Where the first part leads to `Q`, and the second part keeps it.
  pub Going->>= :
      {A B : Type 0} (Q : S → Type 0) (m : Step S E A) (f : A → Step S E B) (s : S)
      → Going Q (m s)
      → ((a : A) → Preserves Q (f a))
      → Going Q ((m >>= f) s)
  unfolding ◌>>=◌
  Going->>= Q m f s p k = Going-continue_with Q f (m s) p k

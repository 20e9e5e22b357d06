-- ===== src/Redaction/Secrets.antt =====
-- What redaction hides and bounds (src/logging/redact.rs).
use agent_kuibysheff.Common.{
  ℕ, ◌≤◌, Bool, true, false, not, ◌++◌, ◌≡◌, refl, ap, inl, inr, arith, length, take, leb,
  length-append, length-take, Text, Bool-cases, if◌then◌else◌, take-append_full,
}
use agent_kuibysheff.Common.Json.{
  Value, null, bool, number, string, array, object, Items, nil, cons, Fields, end, field,
}
use agent_kuibysheff.Redaction.{
  AuditRedactionPolicy, is_sensitive_key, truncate_utf8_chars, truncated_suffix, redact_node,
  redact_items, redact_fields, redact_value,
}

-- A switch that is on, on both sides.
switched_on :
    (on : Bool) (v w x y : Value)
    → on ≡ true
    → x ≡ y
    → (if not on then v else x) ≡ (if not on then w else y)
switched_on true v w x y h p = p
switched_on false v w x y h p = cc

switched_twice :
    (on : Bool) (f : Value → Value) (v : Value)
    → f (f v) ≡ f v
    → (let once = (if not on then v else f v) in if not on then once else f once)
      ≡ (if not on then v else f v)
switched_twice true f v p = p
switched_twice false f v p = refl

module _ (policy : AuditRedactionPolicy) where
  -- Two values that differ only below sensitive keys.
  mutual
    pub data Alike : Value → Value → Type 0 where
      same : (v : Value) → Alike v v
      arrays : {xs ys : Items} → AlikeItems xs ys → Alike (array xs) (array ys)
      objects : {fs gs : Fields} → AlikeFields fs gs → Alike (object fs) (object gs)

    pub data AlikeItems : Items → Items → Type 0 where
      no_items : AlikeItems nil nil
      more_items :
          {v w : Value} {xs ys : Items}
          → Alike v w
          → AlikeItems xs ys
          → AlikeItems (cons v xs) (cons w ys)

    pub data AlikeFields : Fields → Fields → Type 0 where
      no_fields : AlikeFields end end
      open_field :
          (k : Text) {v w : Value} {fs gs : Fields}
          → Alike v w
          → AlikeFields fs gs
          → AlikeFields (field k v fs) (field k w gs)
      secret :
          (k : Text) {v w : Value} {fs gs : Fields}
          → is_sensitive_key policy k ≡ true
          → AlikeFields fs gs
          → AlikeFields (field k v fs) (field k w gs)

  mutual
    unfolding redact_node

    redact_node-Alike :
        (hidden : Bool) {v w : Value}
        → Alike v w
        → redact_node policy hidden v ≡ redact_node policy hidden w
    redact_node-Alike true r = refl
    redact_node-Alike false (same v) = refl
    redact_node-Alike false (arrays r) = ap array (redact_items-Alike r)
    redact_node-Alike false (objects r) = ap object (redact_fields-Alike r)

    redact_items-Alike :
        {xs ys : Items} → AlikeItems xs ys → redact_items policy xs ≡ redact_items policy ys
    redact_items-Alike no_items = refl
    redact_items-Alike (more_items r rs) =
        λ i. cons (redact_node-Alike false r i) (redact_items-Alike rs i)

    redact_fields-Alike :
        {fs gs : Fields} → AlikeFields fs gs → redact_fields policy fs ≡ redact_fields policy gs
    redact_fields-Alike no_fields = refl
    redact_fields-Alike (open_field k r rs) =
        λ i. field k (redact_node-Alike (is_sensitive_key policy k) r i) (redact_fields-Alike rs i)
    redact_fields-Alike (secret k s rs) =
        rw s (ap (field k (redact_node policy true null)) (redact_fields-Alike rs))

  -- With redaction enabled, two payloads that differ only below sensitive keys give the same log entry:
  -- nothing of what stands below such a key reaches the log.
  pub redact_value-Alike :
      {v w : Value}
      → policy.enabled ≡ true
      → Alike v w
      → redact_value v policy ≡ redact_value w policy
  unfolding redact_value
  redact_value-Alike {v} {w} on r =
      switched_on policy.enabled v w (redact_node policy false v) (redact_node policy false w) on
        (redact_node-Alike false r)

  truncate_utf8_chars_twice :
      (t : Text) (n : ℕ) → truncate_utf8_chars (truncate_utf8_chars t n) n ≡ truncate_utf8_chars t n
  unfolding truncate_utf8_chars
  truncate_utf8_chars_twice t n = elim (Bool-cases (leb (length t) n)) [
    | inl short ↦ rw (truncate_utf8_chars, short, short)
    | inr long ↦
        let full : n ≤ length t = ground arith in
        let over : leb (length (take n t ++ truncated_suffix)) n ≡ false =
          ground (arith, length-append (take n t) truncated_suffix, length-take n t) in
        rw (truncate_utf8_chars, long, over)
          (ap (λ (x : Text). x ++ truncated_suffix) (take-append_full n t truncated_suffix full))
  ]

  mutual
    unfolding redact_node

    redact_node_twice :
        (hidden : Bool) (v : Value)
        → redact_node policy hidden (redact_node policy hidden v) ≡ redact_node policy hidden v
    redact_node_twice true v = refl
    redact_node_twice false (object map) = ap object (redact_fields_twice map)
    redact_node_twice false (array items) = ap array (redact_items_twice items)
    redact_node_twice false (string t) =
        ap string (truncate_utf8_chars_twice t policy.max_string_chars)
    redact_node_twice false null = refl
    redact_node_twice false (bool b) = refl
    redact_node_twice false (number n) = refl

    redact_items_twice :
        (xs : Items) → redact_items policy (redact_items policy xs) ≡ redact_items policy xs
    redact_items_twice nil = refl
    redact_items_twice (cons v xs) =
        λ i. cons (redact_node_twice false v i) (redact_items_twice xs i)

    redact_fields_twice :
        (fs : Fields) → redact_fields policy (redact_fields policy fs) ≡ redact_fields policy fs
    redact_fields_twice end = refl
    redact_fields_twice (field k v fs) =
        λ i. field k (redact_node_twice (is_sensitive_key policy k) v i) (redact_fields_twice fs i)

  pub redact_value_twice :
      (v : Value) → redact_value (redact_value v policy) policy ≡ redact_value v policy
  unfolding redact_value
  redact_value_twice v =
      switched_twice policy.enabled (redact_node policy false) v (redact_node_twice false v)

-- ===== src/Redact/Secrets.antt =====
-- nest-api/src/audit/redact.ts: no secret is left.
use trekker.Prelude.{
  ℕ, ◌+◌, ◌≡◌, refl, true, false, ◌||◌, Option, none, some, if_either, ltb, arith,
}
use trekker.Text.{codes, text_eq}
use trekker.Redact.{
  Value, text_value, plain, bigint, digits, array, object, Items, no_items, item, Fields, no_fields,
  field, redacted_value, max_depth, scrub, scrub_items, scrub_fields, redact, is_secret_key,
  is_secret_value,
}

-- No text in the value is one that patterns of secrets match, and each field whose name tells of a secret
-- is redacted.
abbrev mutual
  pub IsClean : Value → Type 0
  IsClean (text_value s) = is_secret_value s ≡ false
  IsClean (plain s) = Unit
  IsClean (bigint n) = Unit
  IsClean (digits n) = Unit
  IsClean (array items) = AreClean items
  IsClean (object fields) = AreCleanFields fields

  pub AreClean : Items → Type 0
  AreClean no_items = Unit
  AreClean (item v items) = IsClean v × AreClean items

  pub AreCleanFields : Fields → Type 0
  AreCleanFields no_fields = Unit
  AreCleanFields (field key v fields) =
      (is_secret_key key ≡ true → v ≡ redacted_value) × IsClean v × AreCleanFields fields

redacted-IsClean : IsClean redacted_value
unfolding is_secret_value
redacted-IsClean = refl

mutual
  unfolding scrub

  scrub-IsClean : (v : Value) (depth : ℕ) → IsClean (scrub v depth)
  scrub-IsClean (text_value s) depth =
      if_either IsClean (ltb max_depth depth || is_secret_value s) (λ _. redacted-IsClean)
        (λ e. ground (arith, e))
  scrub-IsClean (plain s) depth =
      if_either IsClean (ltb max_depth depth) (λ _. redacted-IsClean) (λ _. tt)
  scrub-IsClean (bigint n) depth =
      if_either IsClean (ltb max_depth depth) (λ _. redacted-IsClean) (λ _. tt)
  scrub-IsClean (digits n) depth =
      if_either IsClean (ltb max_depth depth) (λ _. redacted-IsClean) (λ _. tt)
  scrub-IsClean (array items) depth =
      if_either IsClean (ltb max_depth depth) (λ _. redacted-IsClean)
        (λ _. scrub_items-AreClean items (depth + 1))
  scrub-IsClean (object fields) depth =
      if_either IsClean (ltb max_depth depth) (λ _. redacted-IsClean)
        (λ _. scrub_fields-AreCleanFields fields (depth + 1))

  scrub_items-AreClean : (items : Items) (depth : ℕ) → AreClean (scrub_items items depth)
  scrub_items-AreClean no_items depth = tt
  scrub_items-AreClean (item v items) depth =
      (scrub-IsClean v depth, scrub_items-AreClean items depth)

  scrub_fields-AreCleanFields :
      (fields : Fields) (depth : ℕ) → AreCleanFields (scrub_fields fields depth)
  scrub_fields-AreCleanFields no_fields depth = tt
  scrub_fields-AreCleanFields (field key v fields) depth =
      let rest = scrub_fields-AreCleanFields fields depth in
      let inside = scrub-IsClean v depth in
      if_either AreCleanFields (text_eq key (codes "__proto__")) (λ _. rest)
        (λ _. (
          (λ secret. rw (secret) refl),
          if_either IsClean (is_secret_key key) (λ _. redacted-IsClean) (λ _. inside),
          rest,
        ))

-- A payload is kept, and clean.
abbrev pub IsKept : Option Value → Type 0
IsKept none = ⊥
IsKept (some value) = IsClean value

-- Whatever the payload, it is kept; no text of what is kept matches a pattern of secrets, at any depth, and a field
-- whose name tells of a secret keeps nothing of its value.
pub redact-IsKept : (payload : Fields) → IsKept (redact (some payload))
unfolding redact
redact-IsKept payload = scrub-IsClean (object payload) 0

-- ===== src/Redact.antt =====
-- nest-api/src/audit/redact.ts: what is taken out of a payload before the audit log keeps it.
pub mod Secrets
mod Tests
use trekker.Prelude.{
  ℕ, zero, suc, ◌+◌, ◌-◌, Bool, true, false, not, ◌&&◌, ◌||◌, Option, none, some, List, [], ◌∷◌,
  ◌++◌, if◌then◌else◌, ltb, leb, ◌==◌, length,
}
use trekker.Text.{Text, codes, text_eq, starts_with, is_space, trim_start_space}
use trekker.Text.Cases.{lower, begins, holds}

abbrev pub is_digit_or_letter : ℕ → Bool
is_digit_or_letter c = (leb 48 c && leb c 57) || (leb 97 (lower c) && leb (lower c) 122)

-- `\w`
abbrev pub is_word : ℕ → Bool
is_word c = is_digit_or_letter c || c == 95

abbrev pub ends_word : Text → Bool
ends_word [] = true
ends_word (c ∷ s) = not (is_word c)

-- `\bkey\b`, behind a code unit of a word or not.
unfoldable pub has_key : Bool → Text → Bool
unfolding begins
has_key behind [] = false
has_key behind (a ∷ []) = false
has_key behind (a ∷ b ∷ []) = false
has_key behind (a ∷ b ∷ c ∷ s) =
    let later = has_key (is_word a) (b ∷ c ∷ s) in
    (not behind && begins (codes "key") (a ∷ b ∷ c ∷ []) && ends_word s) || later

-- SECRET_KEY
unfoldable pub is_secret_key : Text → Bool
unfolding holds has_key
is_secret_key key =
    holds (codes "pass") key
    || holds (codes "secret") key
    || holds (codes "token") key
    || holds (codes "credential") key
    || holds (codes "privatekey") key
    || holds (codes "private_key") key
    || has_key false key
    || holds (codes "auth") key
    || holds (codes "cookie") key
    || holds (codes "session") key
    || holds (codes "signature") key
    || holds (codes "otp") key

-- `[A-Z ]*PRIVATE KEY-----`
unfoldable pub pem_label : Text → Bool
unfolding starts_with
pem_label [] = false
pem_label (c ∷ s) =
    starts_with (codes "PRIVATE KEY-----") (c ∷ s)
    || (((leb 65 c && leb c 90) || c == 32) && pem_label s)

abbrev pub pem_head : Text
pem_head = codes "-----BEGIN "

-- What is left behind a number of code units.
unfoldable pub behind_head : ℕ → Text → Text
behind_head zero s = s
behind_head (suc n) [] = []
behind_head (suc n) (c ∷ s) = behind_head n s

unfoldable pub has_pem : Text → Bool
unfolding starts_with pem_label behind_head
has_pem [] = false
has_pem (c ∷ s) =
    (starts_with pem_head (c ∷ s) && pem_label (behind_head (length pem_head) (c ∷ s))) || has_pem s

-- How many code units of a token the text begins with, and the text behind them.
unfoldable pub token_run : Text → ℕ × Text
token_run [] = (0, [])
token_run (c ∷ s) =
    let run = token_run s in if is_word c || c == 45 then (run.0 + 1, run.1) else (0, c ∷ s)

-- `[A-Za-z0-9_-]{10,}\.`: what stands behind it.
abbrev pub behind_dot : ℕ × Text → Option Text
behind_dot (n, []) = none
behind_dot (n, c ∷ s) = if leb 10 n && c == 46 then some s else none

abbrev pub has_second : Option Text → Bool
has_second none = false
has_second (some s) = elim (behind_dot (token_run s)) [ none ↦ false | some rest ↦ true ]

unfoldable pub is_jwt : Text → Bool
unfolding starts_with token_run behind_head
is_jwt s = starts_with (codes "ey") s && has_second (behind_dot (token_run (behind_head 2 s)))

-- How many code units stand before the next space.
unfoldable pub dense : Text → ℕ
unfolding is_space
dense [] = 0
dense (c ∷ s) = let rest = dense s in if is_space c then 0 else rest + 1

-- `\s+\S{8,}`
abbrev pub has_credential : Text → Bool
has_credential [] = false
has_credential (c ∷ s) = is_space c && leb 8 (dense (trim_start_space s))

unfoldable pub is_bearer : Text → Bool
unfolding begins behind_head dense trim_start_space is_space
is_bearer s =
    (begins (codes "bearer") s && has_credential (behind_head 6 s))
    || (begins (codes "basic") s && has_credential (behind_head 5 s))

unfoldable pub is_secret_value : Text → Bool
unfolding has_pem is_jwt is_bearer
is_secret_value value = has_pem value || is_jwt value || is_bearer value

abbrev pub redacted : Text
redacted = codes "[redacted]"

abbrev pub max_depth : ℕ
max_depth = 6

-- A value of a payload. `plain` is undefined, null, a number or a Boolean, as it is written; `digits` is the
-- string of a bigint. An object has the fields that Object.entries lists.
mutual
  pub data Value : Type 0 where
    text_value : Text → Value
    plain : Text → Value
    bigint digits : ℕ → Value
    array : Items → Value
    object : Fields → Value

  pub data Items : Type 0 where
    no_items : Items
    item : Value → Items → Items

  pub data Fields : Type 0 where
    no_fields : Fields
    field : Text → Value → Fields → Fields

abbrev pub redacted_value : Value
redacted_value = text_value redacted

-- `out[key] = value` on an object without fields: under __proto__ it makes no field.
abbrev pub set_field : Text → Value → Fields → Fields
set_field key value fields =
    if text_eq key (codes "__proto__") then fields else field key value fields

unfoldable mutual
  unfolding is_secret_value is_secret_key text_eq

  pub scrub : Value → ℕ → Value
  scrub (text_value s) depth =
      if ltb max_depth depth || is_secret_value s then redacted_value else text_value s
  scrub (plain s) depth = if ltb max_depth depth then redacted_value else plain s
  scrub (bigint n) depth = if ltb max_depth depth then redacted_value else digits n
  scrub (digits n) depth = if ltb max_depth depth then redacted_value else digits n
  scrub (array items) depth =
      let inside = scrub_items items (depth + 1) in
      if ltb max_depth depth then redacted_value else array inside
  scrub (object fields) depth =
      let inside = scrub_fields fields (depth + 1) in
      if ltb max_depth depth then redacted_value else object inside

  pub scrub_items : Items → ℕ → Items
  scrub_items no_items depth = no_items
  scrub_items (item v items) depth = item (scrub v depth) (scrub_items items depth)

  pub scrub_fields : Fields → ℕ → Fields
  scrub_fields no_fields depth = no_fields
  scrub_fields (field key v fields) depth =
      let inside = scrub v depth in
      set_field key (if is_secret_key key then redacted_value else inside)
        (scrub_fields fields depth)

unfoldable pub redact : Option Fields → Option Value
unfolding scrub
redact none = none
redact (some payload) = some (scrub (object payload) 0)

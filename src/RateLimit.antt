-- ===== src/RateLimit.antt =====
-- nest-api/src/audit/rate-limit.service.ts: the counters of uses in a fixed window. A counter is a key
-- of Redis, which forgets it when its time to live is over; the clock, in seconds, is an argument.
pub mod Windows
mod Tests
use trekker.Prelude.{
  ℕ, ◌+◌, ◌-◌, Bool, true, false, Option, none, some, if◌then◌else◌, ltb, leb, ◌==◌,
}

pub record LimitRule : Type 0 where
  pub max : ℕ
  pub window_seconds : ℕ

pub record LimitVerdict : Type 0 where
  pub allowed : Bool
  pub reset_seconds : ℕ
  pub count : ℕ

-- A key with its value and the time at which it is gone, if it has one.
pub record Counter : Type 0 where
  pub count : ℕ
  pub expires_at : Option ℕ

abbrev pub is_gone : ℕ → Option ℕ → Bool
is_gone now none = false
is_gone now (some at) = leb at now

-- What Redis has of a key at a time.
unfoldable pub current : ℕ → Option Counter → Option Counter
current now none = none
current now (some c) = if is_gone now c.expires_at then none else some c

abbrev pub count_of : Option Counter → ℕ
count_of none = 0
count_of (some c) = c.count

abbrev pub expiry_of : Option Counter → Option ℕ
expiry_of none = none
expiry_of (some c) = c.expires_at

-- INCRBY, and EXPIRE on the write that made the key.
unfoldable pub count_use : LimitRule → ℕ → ℕ → Option Counter → Counter
count_use rule now amount key =
    let count = count_of key + amount in
    record {
      count = count;
      expires_at = if count == amount then some (now + rule.window_seconds) else expiry_of key;
    }

-- TTL, or the whole window where there is none left.
abbrev pub reset_of : LimitRule → ℕ → Option ℕ → ℕ
reset_of rule now none = rule.window_seconds
reset_of rule now (some at) = if ltb now at then at - now else rule.window_seconds

unfoldable pub verdict_of : LimitRule → ℕ → Counter → LimitVerdict
verdict_of rule now c =
    if leb c.count rule.max
    then record { allowed = true; reset_seconds = 0; count = c.count }
    else record { allowed = false; reset_seconds = reset_of rule now c.expires_at; count = c.count }

-- With Redis out of reach the use is allowed and nothing is count_use.
unfoldable pub consume : LimitRule → Bool → ℕ → ℕ → Option Counter → LimitVerdict × Option Counter
unfolding current count_use verdict_of
consume rule reachable now amount key =
    let c = count_use rule now amount (current now key) in
    if reachable
    then (verdict_of rule now c, some c)
    else (record { allowed = true; reset_seconds = 0; count = 0 }, key)

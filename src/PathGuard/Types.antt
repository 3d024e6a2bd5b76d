-- ===== src/PathGuard/Types.antt =====
-- The data of the path guard: hosts, roots, drivers and the results of their calls.
use trekker.Prelude.{List}
use trekker.Text.{Text}

pub data Intent : Type 0 where
  read write : Intent

pub data Access : Type 0 where
  read write : Access

pub data Role : Type 0 where
  owner member : Role

pub data Transport : Type 0 where
  local ssh : Transport

-- The log categories of a refusal.
pub data Category : Type 0 where
  malformed unresolvable nothing_resolvable dot_segment_in_new_path : Category
  outside_roots outside_write_roots denylist : Category

pub record ValidatedPath : Type 0 where
  pub host_id : Text
  pub requested_path : Text
  pub real_path : Text
  pub intent : Intent

pub record RootRow : Type 0 where
  pub path : Text
  pub access : Access

pub record ResolvedRoot : Type 0 where
  pub path : Text
  pub real_path : Text
  pub access : Access

pub record Host : Type 0 where
  pub transport : Transport
  pub roots : List RootRow
  pub role : Role

-- What a driver's call comes back with.
pub data Reply (A : Type 0) : Type 0 where
  answered : A → Reply A
  failed disconnected : Reply A

pub record Driver : Type 0 where
  pub host_id : Text
  pub realpath : Text → Reply Text
  pub stat : Text → Reply (Unit {0})

-- A call that may throw a refusal, or the connection error of the driver.
pub data Attempt (A : Type 0) : Type 0 where
  value : A → Attempt A
  refusal : Category → Attempt A
  lost : Attempt A
  out_of_fuel : Attempt A

infixl 5 ◌>>=◌
abbrev pub ◌>>=◌ : {A B : Type 0} → Attempt A → (A → Attempt B) → Attempt B
value a >>= f = f a
refusal c >>= f = refusal c
lost >>= f = lost
out_of_fuel >>= f = out_of_fuel

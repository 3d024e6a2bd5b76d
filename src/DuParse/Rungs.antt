-- ===== src/DuParse/Rungs.antt =====
-- nest-api/src/scans/du-flavour.ts: the ways to run `du`, the richest first, and when to try the next one.
use trekker.Prelude.{
  ℕ, Bool, true, false, not, ◌&&◌, ◌||◌, Option, none, some, List, [], ◌∷◌, if◌then◌else◌, leb,
}
use trekker.Text.Cases.{holds}
use trekker.Text.{Text, codes, is_empty, trim}

pub data ScanFlavour : Type 0 where
  gnu portable subtotals : ScanFlavour

pub record DuRung : Type 0 where
  pub flavour : ScanFlavour
  pub args : List Text
  pub null_terminated : Bool
  pub unit_bytes : ℕ
  pub has_time : Bool
  pub has_files : Bool

abbrev pub du_rungs : List DuRung
du_rungs =
    record {
      flavour = gnu;
      args =
          codes "-x"
          ∷ codes "-a"
          ∷ codes "-0"
          ∷ codes "-B1"
          ∷ codes "--time"
          ∷ codes "--time-style=+%s"
          ∷ codes "--"
          ∷ [];
      null_terminated = true;
      unit_bytes = 1;
      has_time = true;
      has_files = true;
    }
    ∷ record {
      flavour = gnu;
      args =
          codes "-x"
          ∷ codes "-a"
          ∷ codes "-B1"
          ∷ codes "--time"
          ∷ codes "--time-style=+%s"
          ∷ codes "--"
          ∷ [];
      null_terminated = false;
      unit_bytes = 1;
      has_time = true;
      has_files = true;
    }
    ∷ record {
      flavour = portable;
      args = codes "-x" ∷ codes "-a" ∷ codes "-k" ∷ codes "--" ∷ [];
      null_terminated = false;
      unit_bytes = 1024;
      has_time = false;
      has_files = true;
    }
    ∷ record {
      flavour = subtotals;
      args = codes "-x" ∷ codes "-k" ∷ codes "--" ∷ [];
      null_terminated = false;
      unit_bytes = 1024;
      has_time = false;
      has_files = false;
    }
    ∷ []

-- The rungs for the total of one directory.
pub record DuSizeRung : Type 0 where
  pub flavour : ScanFlavour
  pub args : List Text
  pub unit_bytes : ℕ

abbrev pub du_size_rungs : List DuSizeRung
du_size_rungs =
    record { flavour = gnu; args = codes "-s" ∷ codes "-B1" ∷ codes "--" ∷ []; unit_bytes = 1 }
    ∷ record {
      flavour = portable;
      args = codes "-s" ∷ codes "-k" ∷ codes "--" ∷ [];
      unit_bytes = 1024;
    }
    ∷ []

pub record Probe : Type 0 where
  pub flavour : ScanFlavour
  pub is_gnu : Bool

abbrev pub first_rung : Probe → ℕ
first_rung probe = if probe.is_gnu then 0 else 2

abbrev pub first_size_rung : Probe → ℕ
first_size_rung probe = if probe.is_gnu then 0 else 1

unfoldable pub is_refusal : Text → Bool
unfolding holds
is_refusal stderr =
    holds (codes "unrecognized option") stderr
    || holds (codes "illegal option") stderr
    || holds (codes "invalid option") stderr
    || holds (codes "unknown option") stderr
    || holds (codes "usage:") stderr

-- A code that is there and in a range.
abbrev pub is_code_from : ℕ → Option ℕ → Bool
is_code_from low none = false
is_code_from low (some code) = leb low code

unfoldable pub should_demote : Option ℕ → Text → Text → Bool
unfolding is_refusal trim
should_demote code stdout stderr =
    if not (is_empty (trim stdout))
    then false
    else if is_code_from 2 code
    then true
    else is_refusal stderr

unfoldable pub is_nice_failure : Option ℕ → Bool
is_nice_failure none = false
is_nice_failure (some code) = leb 125 code && leb code 127

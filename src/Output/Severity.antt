-- ===== src/Output/Severity.antt =====
-- `moreSevere` and `sameSeverity` against ranks.
use testkube.Base.{ℕ, ◌≤◌, String, ◌&&◌, not, ◌==◌, ◌≡◌, ap, ◌⊎◌, arith, leb, eq_iff, if◌then◌else◌}
use testkube.Output.{Output, type_error, type_result, same_severity, more_severe, keep_severe}

-- A result outranks an error, and both outrank everything else.
abbrev pub rank : String → ℕ
rank a = if a == type_result then 2 else if a == type_error then 1 else 0

-- One type is more severe than another exactly when it differs from it and its rank is as high: two
-- types of the lowest rank are each more severe than the other.
pub more_severe_lem : (a b : String) → more_severe a b ≡ (not (a == b) && leb (rank b) (rank a))
unfolding more_severe same_severity
more_severe_lem a b = ground (
  arith,
  eq_iff a b,
  eq_iff a type_result,
  eq_iff b type_result,
  eq_iff a type_error,
  eq_iff b type_error,
)

-- The log `best` ranks as high as `log`, and is as late if they are both results or both errors.
pub record Dominates (best log : Output) : Type 0 where
  pub ranked : rank log.type ≤ rank best.type
  pub latest : 1 ≤ rank best.type → log.type ≡ best.type → log.time ≤ best.time

pub Dominates-refl : (l : Output) → Dominates l l
Dominates-refl l = record { ranked = omega arith; latest = λ _ _. omega arith }

rank_inj : (a b : String) → 1 ≤ rank a → rank a ≡ rank b → a ≡ b
rank_inj a b p e =
    ground
      (arith, eq_iff a type_result, eq_iff b type_result, eq_iff a type_error, eq_iff b type_error)

pub Dominates-trans : {a b c : Output} → Dominates a b → Dominates b c → Dominates a c
Dominates-trans {a} {b} {c} ab bc = record {
  ranked = omega (arith, ab.ranked, bc.ranked);
  latest = λ high same. ground (
    arith,
    ab.ranked,
    bc.ranked,
    ab.latest high,
    bc.latest,
    rank_inj a.type b.type,
    ap rank same,
  );
}

module _ (log best : Output) where
  pub keep_severe_cases :
      ((keep_severe log best ≡ log)
        × (rank best.type ≤ rank log.type)
        × (log.type ≡ best.type → best.time ≤ log.time))
      ⊎ ((keep_severe log best ≡ best)
          × (rank log.type ≤ rank best.type)
          × (log.type ≡ best.type → log.time ≤ best.time))
  unfolding keep_severe
  keep_severe_cases =
      rw (more_severe_lem log.type best.type) (ground (arith, eq_iff log.type best.type))

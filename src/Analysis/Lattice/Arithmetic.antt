-- ===== src/Analysis/Lattice/Arithmetic.antt =====
-- src/analysis/lattice.rs: the operations against the integers that the patterns stand for.
use trim.Prelude.{ℕ, ◌+◌, ◌-◌, ◌%◌, ◌^◌, ◌≤◌, ◌<◌, true, if◌then◌else◌, ◌≡◌, ◌≢◌, ◌↔◌, arith}
use trim.Analysis.Lattice.{BinOp, CondCode, compute_binop, compare, is_negative, signed_lt}

-- The signed number of a pattern is `gain x - loss x`: the pattern, less 2^64 where the sign is set.
abbrev pub gain : ℕ → ℕ
gain x = if is_negative x then 0 else x

abbrev pub loss : ℕ → ℕ
loss x = if is_negative x then 2 ^ 64 - x else 0

-- The order of the signed numbers, with both sides moved to where nothing is subtracted.
abbrev pub SignedLt : ℕ → ℕ → Type 0
SignedLt x y = gain x + loss y < gain y + loss x

-- What a condition code means.
abbrev pub Holds : CondCode → ℕ → ℕ → Type 0
Holds CondCode.eq x y = x ≡ y
Holds CondCode.ne x y = x ≢ y
Holds CondCode.lt x y = SignedLt x y
Holds CondCode.ge x y = ¬ SignedLt x y
Holds CondCode.le x y = ¬ SignedLt y x
Holds CondCode.gt x y = SignedLt y x
Holds CondCode.ltu x y = x < y
Holds CondCode.geu x y = y ≤ x

signed_lt_iff : (x y : ℕ) → x < 2 ^ 64 → y < 2 ^ 64 → (signed_lt x y ≡ true) ↔ SignedLt x y
signed_lt_iff x y h k = ground arith

-- On 64-bit patterns `compare` decides each condition: equality, the order of the signed numbers,
-- and the order of the unsigned ones.
pub compare_decides :
    (cond : CondCode) (x y : ℕ)
    → x < 2 ^ 64
    → y < 2 ^ 64
    → (compare x y cond ≡ true) ↔ Holds cond x y
unfolding compare
compare_decides CondCode.eq x y h k = ground arith
compare_decides CondCode.ne x y h k = ground arith
compare_decides CondCode.lt x y h k = signed_lt_iff x y h k
compare_decides CondCode.ge x y h k = ground (arith, signed_lt_iff x y h k)
compare_decides CondCode.le x y h k = ground (arith, signed_lt_iff y x k h)
compare_decides CondCode.gt x y h k = signed_lt_iff y x k h
compare_decides CondCode.ltu x y h k = ground arith
compare_decides CondCode.geu x y h k = ground arith

-- On 64-bit patterns addition and subtraction give the signed sum and difference up to a multiple
-- of 2^64, stay 64-bit patterns, and undo each other.
pub compute_binop_ring :
    (x y : ℕ)
    → x < 2 ^ 64
    → y < 2 ^ 64
    → (compute_binop BinOp.add x y < 2 ^ 64)
      × (compute_binop BinOp.sub x y < 2 ^ 64)
      × (compute_binop BinOp.sub (compute_binop BinOp.add x y) y ≡ x)
      × ((compute_binop BinOp.add x y + loss x + loss y) % 2 ^ 64 ≡ (gain x + gain y) % 2 ^ 64)
      × ((compute_binop BinOp.sub x y + loss x + gain y) % 2 ^ 64 ≡ (gain x + loss y) % 2 ^ 64)
unfolding compute_binop
compute_binop_ring x y h k = (omega arith, omega arith, omega arith, ground arith, ground arith)

-- ===== src/Analysis/Lattice.antt =====
-- src/analysis/lattice.rs: the values of constant propagation, their meet, and the operations on
-- them. An `i64` is its bit pattern, a number below 2^64.
pub mod Order
pub mod Arithmetic
use Prim.Native.Nat.{bit_and, bit_or, bit_xor}
use trim.Prelude.{
  ℕ, ◌+◌, ◌-◌, ◌*◌, ◌/◌, ◌%◌, ◌^◌, Bool, true, false, not, Option, none, some, ltb, leb, ◌==◌,
  if◌then◌else◌, wrapping_add, wrapping_sub, u64_mod,
}

pub data Value : Type 0 where
  bot top : Value
  const : ℕ → Value

unfoldable pub meet : Value → Value → Value
meet Value.bot v = v
meet v Value.bot = v
meet Value.top v = Value.top
meet v Value.top = Value.top
meet (Value.const a) (Value.const b) = if a == b then Value.const a else Value.top

unfoldable pub is_const : Value → Bool
is_const (Value.const a) = true
is_const v = false

unfoldable pub as_const : Value → Option ℕ
as_const (Value.const a) = some a
as_const v = none

pub data BinOp : Type 0 where
  add sub and or xor shl shr sar mul : BinOp

pub data CondCode : Type 0 where
  eq ne lt ge le gt ltu geu : CondCode

-- The sign bit of a pattern.
abbrev pub is_negative : ℕ → Bool
is_negative x = leb (2 ^ 63) x

-- `x.wrapping_shl(y as u32)`: the amount is taken modulo 64.
abbrev pub wrapping_shl : ℕ → ℕ → ℕ
wrapping_shl x y = x * 2 ^ (y % 64) % u64_mod

-- `(x as u64).wrapping_shr(y as u32)`.
abbrev pub wrapping_shr : ℕ → ℕ → ℕ
wrapping_shr x y = x / 2 ^ (y % 64)

-- `x.wrapping_shr(y as u32)` on a signed number: the sign bit is copied in. For a negative pattern
-- the complement is shifted.
abbrev pub wrapping_sar : ℕ → ℕ → ℕ
wrapping_sar x y =
    if is_negative x then u64_mod - 1 - (u64_mod - 1 - x) / 2 ^ (y % 64) else x / 2 ^ (y % 64)

unfoldable pub compute_binop : BinOp → ℕ → ℕ → ℕ
compute_binop BinOp.add x y = wrapping_add x y
compute_binop BinOp.sub x y = wrapping_sub x y
compute_binop BinOp.and x y = bit_and x y
compute_binop BinOp.or x y = bit_or x y
compute_binop BinOp.xor x y = bit_xor x y
compute_binop BinOp.shl x y = wrapping_shl x y
compute_binop BinOp.shr x y = wrapping_shr x y
compute_binop BinOp.sar x y = wrapping_sar x y
compute_binop BinOp.mul x y = x * y % u64_mod

unfoldable pub eval_binop : BinOp → Value → Value → Value
eval_binop op Value.bot v = Value.bot
eval_binop op v Value.bot = Value.bot
eval_binop op Value.top v = Value.top
eval_binop op v Value.top = Value.top
eval_binop op (Value.const x) (Value.const y) = Value.const (compute_binop op x y)

-- `x < y` on signed numbers: the patterns with the sign bit flipped.
abbrev pub signed_lt : ℕ → ℕ → Bool
signed_lt x y =
    if is_negative x
    then (if is_negative y then ltb x y else true)
    else (if is_negative y then false else ltb x y)

unfoldable pub compare : ℕ → ℕ → CondCode → Bool
compare x y CondCode.eq = x == y
compare x y CondCode.ne = not (x == y)
compare x y CondCode.lt = signed_lt x y
compare x y CondCode.ge = not (signed_lt x y)
compare x y CondCode.le = not (signed_lt y x)
compare x y CondCode.gt = signed_lt y x
compare x y CondCode.ltu = ltb x y
compare x y CondCode.geu = leb y x

unfoldable pub eval_cmp : CondCode → Value → Value → Value
eval_cmp cc Value.bot v = Value.bot
eval_cmp cc v Value.bot = Value.bot
eval_cmp cc Value.top v = Value.top
eval_cmp cc v Value.top = Value.top
eval_cmp cc (Value.const x) (Value.const y) = Value.const (if compare x y cc then 1 else 0)

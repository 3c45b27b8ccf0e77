-- ===== src/Analysis/Lattice/Order.antt =====
-- src/analysis/lattice.rs: the order of values, the meet as its bound, and monotone evaluation.
use trim.Prelude.{ℕ, false, ◌==◌, if◌then◌else◌, ◌≡◌, refl, arith, Bool-cases, inl, inr, ap₂}
use trim.Analysis.Lattice.{
  Value, meet, BinOp, compute_binop, eval_binop, CondCode, compare, eval_cmp,
}

-- Unreachable is below a constant, and a constant below unknown.
abbrev pub Le : Value → Value → Type 0
Le Value.bot w = Unit
Le Value.top Value.top = Unit
Le Value.top w = ⊥
Le (Value.const a) Value.bot = ⊥
Le (Value.const a) Value.top = Unit
Le (Value.const a) (Value.const b) = a ≡ b

le_top : (v : Value) → Le v Value.top
le_top Value.bot = tt
le_top Value.top = tt
le_top (Value.const a) = tt

Le_refl : (v : Value) → Le v v
Le_refl Value.bot = tt
Le_refl Value.top = tt
Le_refl (Value.const a) = refl

-- In the order unreachable < constant < unknown, `meet` is the least value above both arguments:
-- it is above each, and below every value that is above both.
pub meet_least :
    (v w : Value)
    → Le v (meet v w) × Le w (meet v w) × ((u : Value) → Le v u → Le w u → Le (meet v w) u)
unfolding meet
meet_least Value.bot w = (tt, Le_refl w, λ u h k. k)
meet_least Value.top Value.bot = (tt, tt, λ u h k. h)
meet_least Value.top Value.top = (tt, tt, λ u h k. h)
meet_least Value.top (Value.const b) = (tt, tt, λ u h k. h)
meet_least (Value.const a) Value.bot = (refl, tt, λ u h k. h)
meet_least (Value.const a) Value.top = (tt, tt, λ u h k. k)
meet_least (Value.const a) (Value.const b) = elim (Bool-cases (a == b)) [
  | inl same ↦ rw same (refl, ground arith, λ u h k. h)
  | inr other ↦ rw other (tt, tt, λ u h k. both u other h k)
]
  where
    both :
        (u : Value)
        → (a == b) ≡ false
        → Le (Value.const a) u
        → Le (Value.const b) u
        → Le Value.top u
    both Value.bot other h k = absurd h
    both Value.top other h k = tt
    both (Value.const c) other h k = ground arith

-- What both evaluators do with their arguments.
abbrev lifted : (ℕ → ℕ → ℕ) → Value → Value → Value
lifted f Value.bot w = Value.bot
lifted f v Value.bot = Value.bot
lifted f Value.top w = Value.top
lifted f v Value.top = Value.top
lifted f (Value.const x) (Value.const y) = Value.const (f x y)

lifted_mono :
    (f : ℕ → ℕ → ℕ) (v w v' w' : Value) → Le v v' → Le w w' → Le (lifted f v w) (lifted f v' w')
lifted_mono f Value.bot w v' w' h k = tt
lifted_mono f Value.top Value.bot v' w' h k = tt
lifted_mono f Value.top Value.top Value.bot w' h k = absurd h
lifted_mono f Value.top Value.top Value.top Value.bot h k = absurd k
lifted_mono f Value.top Value.top Value.top Value.top h k = tt
lifted_mono f Value.top Value.top Value.top (Value.const d) h k = absurd k
lifted_mono f Value.top Value.top (Value.const c) w' h k = absurd h
lifted_mono f Value.top (Value.const b) Value.bot w' h k = absurd h
lifted_mono f Value.top (Value.const b) Value.top Value.bot h k = absurd k
lifted_mono f Value.top (Value.const b) Value.top Value.top h k = tt
lifted_mono f Value.top (Value.const b) Value.top (Value.const d) h k = tt
lifted_mono f Value.top (Value.const b) (Value.const c) w' h k = absurd h
lifted_mono f (Value.const a) Value.bot v' w' h k = tt
lifted_mono f (Value.const a) Value.top Value.bot w' h k = absurd h
lifted_mono f (Value.const a) Value.top Value.top Value.bot h k = absurd k
lifted_mono f (Value.const a) Value.top Value.top Value.top h k = tt
lifted_mono f (Value.const a) Value.top Value.top (Value.const d) h k = absurd k
lifted_mono f (Value.const a) Value.top (Value.const c) Value.bot h k = absurd k
lifted_mono f (Value.const a) Value.top (Value.const c) Value.top h k = tt
lifted_mono f (Value.const a) Value.top (Value.const c) (Value.const d) h k = absurd k
lifted_mono f (Value.const a) (Value.const b) Value.bot w' h k = absurd h
lifted_mono f (Value.const a) (Value.const b) Value.top Value.bot h k = absurd k
lifted_mono f (Value.const a) (Value.const b) Value.top Value.top h k = tt
lifted_mono f (Value.const a) (Value.const b) Value.top (Value.const d) h k = tt
lifted_mono f (Value.const a) (Value.const b) (Value.const c) Value.bot h k = absurd k
lifted_mono f (Value.const a) (Value.const b) (Value.const c) Value.top h k = tt
lifted_mono f (Value.const a) (Value.const b) (Value.const c) (Value.const d) h k = ap₂ f h k

eval_binop-lifted : (op : BinOp) (v w : Value) → eval_binop op v w ≡ lifted (compute_binop op) v w
unfolding eval_binop
eval_binop-lifted op v w = ground arith

eval_cmp-lifted :
    (cond : CondCode) (v w : Value)
    → eval_cmp cond v w ≡ lifted (λ x y. if compare x y cond then 1 else 0) v w
unfolding eval_cmp
eval_cmp-lifted cond v w = ground arith

-- Evaluation is monotone in both arguments, for every operation and every comparison: knowing less
-- of the arguments never gives a result that contradicts the one that more knowledge gives.
pub eval_mono :
    (op : BinOp) (cond : CondCode) (v w v' w' : Value)
    → Le v v'
    → Le w w'
    → Le (eval_binop op v w) (eval_binop op v' w') × Le (eval_cmp cond v w) (eval_cmp cond v' w')
eval_mono op cond v w v' w' h k = (
  rw (eval_binop-lifted op v w, eval_binop-lifted op v' w')
      (lifted_mono (compute_binop op) v w v' w' h k),
  rw (eval_cmp-lifted cond v w, eval_cmp-lifted cond v' w')
      (lifted_mono (λ x y. if compare x y cond then 1 else 0) v w v' w' h k),
)

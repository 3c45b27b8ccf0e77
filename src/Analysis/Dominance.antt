-- ===== src/Analysis/Dominance.antt =====
-- src/analysis/dominance.rs: the predecessors of blocks and their reverse post-order. A vector indexed by block is
-- a list; a read past its end, which panics in the source, is the value that stands for no block.
pub mod Order
use trim.Prelude.{
  ℕ, zero, suc, ◌+◌, ◌*◌, Bool, true, false, not, List, [], ◌∷◌, ◌++◌, Option, none, some, leb, ltb,
  ◌==◌, ◌&&◌, ◌||◌, if◌then◌else◌, length, get_elem?, reverse, keep, nat_eq,
}
use trim.Prelude.Sets.{contains}

-- `xs[i]` of a list of lists.
abbrev pub row {ℓ} : {A : Type ℓ} → List (List A) → ℕ → List A
row xs i = elim (get_elem? xs i) [ none ↦ [] | some x ↦ x ]

-- `xs[i] = x`
abbrev pub set_at {ℓ} : {A : Type ℓ} → ℕ → A → List A → List A
set_at i x [] = []
set_at zero x (y ∷ ys) = x ∷ ys
set_at (suc i) x (y ∷ ys) = y ∷ set_at i x ys

-- `vec![x; n]`
abbrev pub filled {ℓ} : {A : Type ℓ} → ℕ → A → List A
filled zero x = []
filled (suc n) x = x ∷ filled n x

-- `preds[s].push(b)`, for the successors inside the list.
unfoldable pub push_preds : ℕ → ℕ → List ℕ → List (List ℕ) → List (List ℕ)
push_preds n b [] preds = preds
push_preds n b (s ∷ ss) preds =
    push_preds n b ss (if ltb s n then set_at s (row preds s ++ b ∷ []) preds else preds)

unfoldable pub preds_from : ℕ → ℕ → List (List ℕ) → List (List ℕ) → List (List ℕ)
preds_from n b [] preds = preds
preds_from n b (ss ∷ succs) preds = preds_from n (b + 1) succs (push_preds n b ss preds)

unfoldable pub build_predecessors : List (List ℕ) → ℕ → List (List ℕ)
build_predecessors succs n = preds_from n 0 succs (filled n [])

-- The stack of the depth-first search, its top first: a block, and whether its successors are done.
abbrev pub Stack : Type 0
Stack = List (ℕ × Bool)

-- The successors are pushed in reverse, so that the first one is on top.
unfoldable pub push_succs : ℕ → List ℕ → List ℕ → Stack → Stack
push_succs n visited [] stack = stack
push_succs n visited (s ∷ ss) stack =
    let rest = push_succs n visited ss stack in
    if ltb s n && not (contains visited s) then (s, false) ∷ rest else rest

-- The loop, on fuel; the blocks come out in reverse post-order, each before those found earlier.
unfoldable pub rpo_from : ℕ → List (List ℕ) → ℕ → List ℕ → Stack → List ℕ → Option (List ℕ)
rpo_from zero succs n visited stack order = elim stack [ [] ↦ some order | _ ∷ _ ↦ none ]
rpo_from (suc fuel) succs n visited stack order = elim stack [
  | [] ↦ some order
  | (node, processed) ∷ rest ↦ elim (leb n node) [
    | true ↦ rpo_from fuel succs n visited rest order
    | false ↦ elim processed [
      | true ↦ rpo_from fuel succs n visited rest (node ∷ order)
      | false ↦ elim (contains visited node) [
        | true ↦ rpo_from fuel succs n visited rest order
        | false ↦
            rpo_from fuel succs n (node ∷ visited)
              (push_succs n (node ∷ visited) (row succs node) ((node, true) ∷ rest)) order
      ]
    ]
  ]
]

-- What the blocks below `k` that are not visited may still push: themselves and their successors.
unfoldable pub work : List (List ℕ) → List ℕ → ℕ → ℕ
work succs visited zero = 0
work succs visited (suc k) =
    (if contains visited k then 0 else 1 + length (row succs k)) + work succs visited k

unfoldable pub compute_rpo : List (List ℕ) → ℕ → ℕ → Option (List ℕ)
compute_rpo succs entry n = rpo_from (work succs [] n + 1) succs n [] ((entry, false) ∷ []) []

unfoldable pub rpo_numbers_from : ℕ → ℕ → List ℕ → List ℕ → List ℕ
rpo_numbers_from n i [] nums = nums
rpo_numbers_from n i (b ∷ order) nums =
    rpo_numbers_from n (i + 1) order (if ltb b n then set_at b i nums else nums)

unfoldable pub build_rpo_numbers : List ℕ → ℕ → List ℕ
build_rpo_numbers order n = rpo_numbers_from n 0 order (filled n n)

-- ===== src/Analysis/Cfg/Predecessors.antt =====
-- src/analysis/cfg.rs: successors and predecessors agree.
use trim.Prelude.{
  ℕ, zero, suc, ◌+◌, Bool, List, [], ◌∷◌, some, ◌==◌, ◌||◌, ◌&&◌, ◌≡◌, refl, arith, Bool-cases, inl,
  inr, any, get_elem?, ◌∙◌, sym, nat_eq, ap, ap₂,
}
use trim.Prelude.Sets.{contains, contains-append}
use trim.Analysis.Cfg.Build.{BasicBlock, pushes, preds_of, fill_from, fill_predecessors}

pushes-contains : (i id p : ℕ) (l : List ℕ) → contains (pushes i id l) p ≡ (id == p && contains l i)
unfolding pushes
pushes-contains i id p [] = ground arith
pushes-contains i id p (s ∷ l) = elim (Bool-cases (s == i)) [
  | inl hit ↦ rw (hit, pushes) (ground (arith, pushes-contains i id p l))
  | inr miss ↦ rw (miss, pushes) (pushes-contains i id p l ∙ ground arith)
]

-- Some block numbered `p` has an edge to block `i`.
abbrev pub has_edge : List BasicBlock → ℕ → ℕ → Bool
has_edge blocks p i = any (λ b. b.id == p && contains b.successors i) blocks

preds_of-contains : (l : List BasicBlock) (i p : ℕ) → contains (preds_of l i) p ≡ has_edge l p i
unfolding preds_of
preds_of-contains [] i p = refl
preds_of-contains (b ∷ l) i p =
    contains-append (pushes i b.id b.successors) (preds_of l i) p
    ∙ ap₂ (λ (x y : Bool). x || y) (pushes-contains i b.id p b.successors) (preds_of-contains l i p)

fill_from-get :
    (all : List BasicBlock) (i k : ℕ) (l : List BasicBlock) (b : BasicBlock)
    → get_elem? (fill_from all i l) k ≡ some b
    → b.predecessors ≡ preds_of all (i + k)
unfolding fill_from
fill_from-get all i k [] b h = cc
fill_from-get all i zero (c ∷ l) b h =
    ap BasicBlock.predecessors {x = b} {y = record c { predecessors = preds_of all i }} (cc)
    ∙ ap (preds_of all) (omega arith)
fill_from-get all i (suc k) (c ∷ l) b h =
    fill_from-get all (suc i) k l b h ∙ ap (preds_of all) (omega arith)

has_edge-fill_from :
    (all : List BasicBlock) (i : ℕ) (l : List BasicBlock) (p j : ℕ)
    → has_edge (fill_from all i l) p j ≡ has_edge l p j
unfolding fill_from
has_edge-fill_from all i [] p j = refl
has_edge-fill_from all i (b ∷ l) p j =
    ap (λ (x : Bool). b.id == p && contains b.successors j || x)
      (has_edge-fill_from all (suc i) l p j)

-- After `fill_predecessors`, `p` is listed as a predecessor of the block at position `i` exactly if
-- some block numbered `p` has an edge to `i`.
pub fill_predecessors_lem :
    (blocks : List BasicBlock) (i p : ℕ) (b : BasicBlock)
    → get_elem? (fill_predecessors blocks) i ≡ some b
    → contains b.predecessors p ≡ has_edge (fill_predecessors blocks) p i
unfolding fill_predecessors
fill_predecessors_lem blocks i p b h =
    ap (λ (l : List ℕ). contains l p)
      (fill_from-get blocks 0 i blocks b h ∙ ap (preds_of blocks) (omega arith))
    ∙ preds_of-contains blocks i p
    ∙ sym (has_edge-fill_from blocks 0 blocks p i)

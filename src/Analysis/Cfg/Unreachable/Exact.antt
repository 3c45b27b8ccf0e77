-- ===== src/Analysis/Cfg/Unreachable/Exact.antt =====
-- src/analysis/cfg.rs: the search ends, and the blocks reported are those that no walk reaches.
use trim.Prelude.{
  ℕ, zero, suc, ◌+◌, ◌≤◌, Bool, true, false, not, List, [], ◌∷◌, ◌++◌, some, String, leb, ◌==◌,
  ◌&&◌, if◌then◌else◌, any, length, nat_eq, ◌≡◌, refl, arith, ◌↔◌, Bool-cases, inl, inr, ap, ◌∙◌,
}
use trim.Prelude.Sets.{contains, contains-append}
use trim.Prelude.Worklist.Correct.{Reach, worklist_ends, worklist_correct}
use trim.Analysis.Cfg.{DeadBlock}
use trim.Analysis.Cfg.Build.{BasicBlock, FuncCfg}
use trim.Analysis.Cfg.Unreachable.{
  block_succs, edge_total, bfs_reachable, block_size, missed_blocks, unreachable_in,
  find_unreachable_blocks,
}

-- The edges out of blocks, numbered from `i` on, that are not visited yet.
weight : ℕ → List BasicBlock → List ℕ → ℕ
weight i [] visited = 0
weight i (b ∷ blocks) visited =
    (if contains visited i then 0 else length b.successors) + weight (suc i) blocks visited

weight_mono :
    (i : ℕ) (blocks : List BasicBlock) (visited : List ℕ) (x : ℕ)
    → weight i blocks (visited ++ x ∷ []) ≤ weight i blocks visited
unfolding weight
weight_mono i [] visited x = omega arith
weight_mono i (b ∷ blocks) visited x =
    ground (arith, weight_mono (suc i) blocks visited x, contains-append visited (x ∷ []) i)

weight_pays :
    (i k x : ℕ) (blocks : List BasicBlock) (visited : List ℕ)
    → x ≡ i + k
    → contains visited x ≡ false
    → weight i blocks (visited ++ x ∷ []) + length (block_succs blocks k) ≤ weight i blocks visited
unfolding weight block_succs
weight_pays i k x [] visited e h = omega arith
weight_pays i zero x (b ∷ blocks) visited e h =
    let same : x ≡ i = omega arith in
    ground (
      arith,
      weight_mono (suc i) blocks visited x,
      contains-append visited (x ∷ []) i,
      ap (contains visited) same,
    )
weight_pays i (suc k) x (b ∷ blocks) visited e h = ground (
  arith,
  weight_pays (suc i) k x blocks visited (omega arith) h,
  contains-append visited (x ∷ []) i,
)

weight_start : (i : ℕ) (blocks : List BasicBlock) → weight i blocks [] ≡ edge_total blocks
unfolding weight edge_total
weight_start i [] = refl
weight_start i (b ∷ blocks) = ap (λ (n : ℕ). length b.successors + n) (weight_start (suc i) blocks)

-- The blocks that a walk along the edges reaches from the entry.
abbrev pub ReachesBlock : FuncCfg → ℕ → Type 0
ReachesBlock cfg bid = Reach (block_succs cfg.blocks) (cfg.entry_block ∷ []) bid

bfs_reachable_decides :
    (cfg : FuncCfg)
    → (reachable : List ℕ) × (bfs_reachable cfg ≡ some reachable)
      × ((bid : ℕ) → (contains reachable bid ≡ true) ↔ ∥ ReachesBlock cfg bid ∥₁)
unfolding bfs_reachable
bfs_reachable_decides cfg =
    let fuel = edge_total cfg.blocks + 1 in
    let entry : List ℕ = cfg.entry_block ∷ [] in
    let (reachable, ends) =
      worklist_ends (block_succs cfg.blocks) (weight 0 cfg.blocks)
        (λ visited x h. weight_pays 0 x x cfg.blocks visited (omega arith) h) fuel [] entry
        (omega (arith, weight_start 0 cfg.blocks)) in
    (reachable, ends, worklist_correct (block_succs cfg.blocks) entry fuel reachable ends)

-- A dead block of that address and size is reported.
abbrev pub has_region : List DeadBlock → ℕ → ℕ → Bool
has_region dead a n = any (λ d. d.addr == a && d.size == n) dead

missed_blocks_lem :
    (name : String) (reachable : List ℕ) (blocks : List BasicBlock) (a n : ℕ)
    → has_region (missed_blocks name reachable blocks) a n
      ≡ any
          (λ b.
            (b.start_addr == a && block_size b == n)
            && (not (contains reachable b.id) && leb 2 (block_size b)))
          blocks
unfolding missed_blocks
missed_blocks_lem name reachable [] a n = refl
missed_blocks_lem name reachable (b ∷ blocks) a n =
    elim (Bool-cases (not (contains reachable b.id) && leb 2 (block_size b))) [
      | inl missed ↦ rw (missed, any) (ground (arith, missed_blocks_lem name reachable blocks a n))
      | inr other ↦ rw (other, any) (missed_blocks_lem name reachable blocks a n ∙ ground arith)
    ]

unreachable_in-some :
    (name : String) (reachable : List ℕ) (blocks : List BasicBlock)
    → unreachable_in name blocks (some reachable) ≡ some (missed_blocks name reachable blocks)
unfolding unreachable_in missed_blocks
unreachable_in-some name reachable [] = refl
unreachable_in-some name reachable (b ∷ blocks) = refl

-- `find_unreachable_blocks` ends on every graph, with a set of blocks that are exactly those that a
-- walk reaches from the entry; a region is reported exactly if it is that of a block outside this
-- set and has at least 2 bytes.
pub find_unreachable_blocks_exact :
    (cfg : FuncCfg)
    → (reachable : List ℕ) × (dead : List DeadBlock) × (find_unreachable_blocks cfg ≡ some dead)
      × ((bid : ℕ) → (contains reachable bid ≡ true) ↔ ∥ ReachesBlock cfg bid ∥₁)
      × ((a n : ℕ)
          → has_region dead a n
            ≡ any
                (λ b.
                  (b.start_addr == a && block_size b == n)
                  && (not (contains reachable b.id) && leb 2 (block_size b)))
                cfg.blocks)
unfolding find_unreachable_blocks
find_unreachable_blocks_exact cfg =
    let (reachable, ends, decides) = bfs_reachable_decides cfg in
    let dead = missed_blocks cfg.func_name reachable cfg.blocks in
    let result : find_unreachable_blocks cfg ≡ some dead =
      ap (unreachable_in cfg.func_name cfg.blocks) ends
      ∙ unreachable_in-some cfg.func_name reachable cfg.blocks in
    (reachable, dead, result, decides, missed_blocks_lem cfg.func_name reachable cfg.blocks)

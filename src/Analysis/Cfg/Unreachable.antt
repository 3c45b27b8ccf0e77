-- ===== src/Analysis/Cfg/Unreachable.antt =====
-- src/analysis/cfg.rs: the search over the blocks of a function, and the blocks that it misses.
pub mod Exact
use trim.Prelude.{
  ℕ, zero, suc, ◌+◌, Bool, true, false, not, List, [], ◌∷◌, ◌++◌, Option, none, some, String, leb,
  ◌==◌, ◌&&◌, ◌||◌, if◌then◌else◌, wrapping_add, wrapping_sub, any, keep, length, get_elem?, map,
  nat_eq,
}
use trim.Prelude.Sets.{contains}
use trim.Prelude.Worklist.{worklist}
use trim.Types.{FuncInfo, FuncMap, FlowType, DecodedInstr}
use trim.Analysis.Cfg.{DeadBlock, instrs_between, should_analyze}
use trim.Analysis.Cfg.Build.{BasicBlock, FuncCfg, build_func_cfg}

-- `blocks[bid].successors`, and nothing for a number that no block has.
unfoldable pub block_succs : List BasicBlock → ℕ → List ℕ
block_succs blocks bid = elim (get_elem? blocks bid) [ none ↦ [] | some b ↦ b.successors ]

unfoldable pub edge_total : List BasicBlock → ℕ
edge_total [] = 0
edge_total (b ∷ blocks) = length b.successors + edge_total blocks

-- `none` would mean that the fuel was too small.
unfoldable pub bfs_reachable : FuncCfg → Option (List ℕ)
bfs_reachable cfg =
    worklist (block_succs cfg.blocks) (edge_total cfg.blocks + 1) [] (cfg.entry_block ∷ [])

abbrev pub block_size : BasicBlock → ℕ
block_size b = wrapping_sub b.end_addr b.start_addr

-- The filter and the map over the blocks.
unfoldable pub missed_blocks : String → List ℕ → List BasicBlock → List DeadBlock
missed_blocks name reachable [] = []
missed_blocks name reachable (b ∷ blocks) =
    (if not (contains reachable b.id) && leb 2 (block_size b)
      then record { func_name = name; addr = b.start_addr; size = block_size b } ∷ []
      else [])
    ++ missed_blocks name reachable blocks

-- With the search's result at hand; a graph with no block has no dead one.
unfoldable pub unreachable_in : String → List BasicBlock → Option (List ℕ) → Option (List DeadBlock)
unreachable_in name [] reachable = some []
unreachable_in name (b ∷ blocks) none = none
unreachable_in name (b ∷ blocks) (some reachable) = some (missed_blocks name reachable (b ∷ blocks))

unfoldable pub find_unreachable_blocks : FuncCfg → Option (List DeadBlock)
unfolding unreachable_in
find_unreachable_blocks cfg = unreachable_in cfg.func_name cfg.blocks (bfs_reachable cfg)

abbrev pub is_indirect : FlowType → Bool
is_indirect FlowType.indirect_branch = true
is_indirect FlowType.indirect_call = true
is_indirect _ = false

abbrev pub is_exit : FlowType → Bool
is_exit FlowType.return = true
is_exit FlowType.halt = true
is_exit _ = false

unfoldable pub is_safe_for_cfg : List DecodedInstr → Bool
is_safe_for_cfg instrs =
    if any (λ i. is_indirect i.flow) instrs then false else any (λ i. is_exit i.flow) instrs

unfoldable pub should_analyze_cfg : String → FuncInfo → List String → List DecodedInstr → Bool
should_analyze_cfg name fi live_funcs instrs =
    if should_analyze name fi live_funcs
    then is_safe_for_cfg (instrs_between fi.addr (wrapping_add fi.addr fi.size) instrs)
    else false

-- The loop over the function map.
unfoldable pub cfg_dead_of :
    FuncMap → FuncMap → List DecodedInstr → List String → Option (List DeadBlock)
cfg_dead_of [] funcs instrs live_funcs = some []
cfg_dead_of ((name, fi) ∷ walked) funcs instrs live_funcs =
    let dead =
      if should_analyze_cfg name fi live_funcs instrs
      then find_unreachable_blocks (build_func_cfg name fi instrs funcs)
      else some [] in
    elim dead [
      | none ↦ none
      | some blocks ↦ elim (cfg_dead_of walked funcs instrs live_funcs) [
        | none ↦ none
        | some rest ↦ some (blocks ++ rest)
      ]
    ]

unfoldable pub find_dead_blocks_cfg :
    FuncMap → List DecodedInstr → List String → Option (List DeadBlock)
find_dead_blocks_cfg funcs instrs live_funcs = cfg_dead_of funcs funcs instrs live_funcs

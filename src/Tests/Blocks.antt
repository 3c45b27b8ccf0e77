-- ===== src/Tests/Blocks.antt =====
-- src/analysis/cfg.rs on a function of 16 bytes at 100: a call that never returns at 100, a branch
-- back at 104, a return at 108.
use trim.Prelude.{
  ℕ, ◌+◌, Bool, true, false, not, List, [], ◌∷◌, some, none, ◌≡◌, refl, arith, ◌↔◌, ◌*◌, nat_eq,
  get_elem?, any, leb, ◌==◌, ◌&&◌,
}
use trim.Prelude.Sets.{contains}
use trim.Types.{FuncInfo, FuncMap, FlowType, DecodedInstr}
use trim.Analysis.Cfg.{DeadBlock, scan_dead_region, find_dead_end}
use trim.Analysis.Cfg.{
  find_dead_in_func, find_post_noreturn_dead, is_dead_start, is_noreturn_call, is_noreturn_name,
  import_name, collect_branch_targets,
}
use trim.Analysis.Cfg.Build.{
  BasicBlock, FuncCfg, build_func_cfg, fill_predecessors, fill_from, preds_of, pushes,
}
use trim.Analysis.Cfg.Tiling.{Tiles, build_func_cfg-Tiles}
use trim.Analysis.Cfg.Unreachable.{find_unreachable_blocks, block_size}
use trim.Analysis.Cfg.Unreachable.Exact.{ReachesBlock, has_region, find_unreachable_blocks_exact}

abbrev instr : ℕ → List ℕ → FlowType → Bool → DecodedInstr
instr a targets flow is_call = record {
  addr = a;
  raw = [];
  len = 4;
  targets = targets;
  pc_rel_target = none;
  is_call = is_call;
  flow = flow;
}

abbrev instrs : List DecodedInstr
instrs =
    instr 100 (400 ∷ []) FlowType.call true
    ∷ instr 104 (108 ∷ []) FlowType.conditional_branch false
    ∷ instr 108 [] FlowType.return false
    ∷ []

abbrev fi : FuncInfo
fi = record { addr = 100; size = 12; is_global = false }

abbrev funcs : FuncMap
funcs = ("f", fi) ∷ ("exit", record { addr = 400; size = 8; is_global = true }) ∷ []

abbrev cfg : FuncCfg
cfg = build_func_cfg "f" fi instrs funcs

scan_run :
    scan_dead_region
      (instr 100 (400 ∷ []) FlowType.call true)
      (instr 104 [] FlowType.normal false ∷ [])
      112
      (108 ∷ [])
    ≡ some (104, 8)
unfolding scan_dead_region find_dead_end
scan_run = refl

dead_run :
    find_dead_in_func "f" fi instrs funcs [] ≡ record { func_name = "f"; addr = 104; size = 4 } ∷ []
unfolding find_dead_in_func find_post_noreturn_dead is_dead_start is_noreturn_call is_noreturn_name
    import_name collect_branch_targets scan_dead_region find_dead_end
dead_run = refl

build_func_cfg-Tiles_example : Tiles 0 100 (100 + 12) cfg.blocks
build_func_cfg-Tiles_example =
    build_func_cfg-Tiles "f" fi instrs funcs (omega arith) (omega arith)
      (omega arith, (omega arith, (omega arith, tt)))

abbrev block : ℕ → List ℕ → List ℕ → BasicBlock
block bid successors predecessors = record {
  id = bid;
  start_addr = 100 + bid * 4;
  end_addr = 104 + bid * 4;
  successors = successors;
  predecessors = predecessors;
}

abbrev bare_blocks : List BasicBlock
bare_blocks = block 0 [] [] ∷ block 1 (2 ∷ []) [] ∷ block 2 [] [] ∷ []

filled_run : get_elem? (fill_predecessors bare_blocks) 2 ≡ some (block 2 [] (1 ∷ []))
unfolding fill_predecessors fill_from preds_of pushes
filled_run = refl

abbrev whole : FuncCfg
whole = record {
  func_name = "f";
  func_addr = 100;
  func_size = 12;
  blocks = bare_blocks;
  entry_block = 0;
}

find_unreachable_blocks_exact_example :
    (reachable : List ℕ) × (dead : List DeadBlock) × (find_unreachable_blocks whole ≡ some dead)
    × ((bid : ℕ) → (contains reachable bid ≡ true) ↔ ∥ ReachesBlock whole bid ∥₁)
    × ((a n : ℕ)
        → has_region dead a n
          ≡ any
              (λ (b : BasicBlock).
                (b.start_addr == a && block_size b == n)
                && (not (contains reachable b.id) && leb 2 (block_size b)))
              bare_blocks)
find_unreachable_blocks_exact_example = find_unreachable_blocks_exact whole

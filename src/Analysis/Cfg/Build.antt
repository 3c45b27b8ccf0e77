-- ===== src/Analysis/Cfg/Build.antt =====
-- src/analysis/cfg.rs: the basic blocks of a function and the edges between them.
use trim.Prelude.{
  ℕ, zero, suc, ◌+◌, Bool, true, false, List, [], ◌∷◌, ◌++◌, Option, none, some, String, leb, ltb,
  ◌==◌, ◌&&◌, if◌then◌else◌, wrapping_add, find, reverse, length, map, nat_eq,
}
use trim.Prelude.Sets.{contains}
use trim.Types.{FuncInfo, FuncMap, FlowType, DecodedInstr}
use trim.Analysis.Cfg.{instrs_between, targets_between, is_noreturn_call}

pub record BasicBlock : Type 0 where
  pub id : ℕ
  pub start_addr : ℕ
  pub end_addr : ℕ
  pub successors : List ℕ
  pub predecessors : List ℕ

pub record FuncCfg : Type 0 where
  pub func_name : String
  pub func_addr : ℕ
  pub func_size : ℕ
  pub blocks : List BasicBlock
  pub entry_block : ℕ

-- Any flow but the normal one ends a block.
unfoldable pub is_block_terminator : FlowType → Bool
is_block_terminator FlowType.normal = false
is_block_terminator _ = true

-- The set of starts, kept in the sorted order in which it is read.
unfoldable pub insert_start : ℕ → List ℕ → List ℕ
insert_start x [] = x ∷ []
insert_start x (y ∷ ys) =
    if ltb x y then x ∷ y ∷ ys else if x == y then y ∷ ys else y ∷ insert_start x ys

unfoldable pub insert_all : List ℕ → List ℕ → List ℕ
insert_all [] starts = starts
insert_all (t ∷ targets) starts = insert_all targets (insert_start t starts)

-- What one instruction adds to the starts.
abbrev pub starts_of : ℕ → ℕ → DecodedInstr → List ℕ
starts_of func_start func_end instr =
    let next = wrapping_add instr.addr instr.len in
    (if is_block_terminator instr.flow && ltb next func_end then next ∷ [] else [])
    ++ (if instr.is_call then [] else targets_between func_start func_end instr.targets)

unfoldable pub add_starts : List DecodedInstr → ℕ → ℕ → List ℕ → List ℕ
add_starts [] func_start func_end starts = starts
add_starts (i ∷ instrs) func_start func_end starts =
    add_starts instrs func_start func_end (insert_all (starts_of func_start func_end i) starts)

unfoldable pub find_block_starts : List DecodedInstr → ℕ → ℕ → List ℕ
find_block_starts instrs func_start func_end =
    add_starts instrs func_start func_end (insert_start func_start [])

-- The blocks from the start with index `id` on; each ends where the next one starts.
unfoldable pub create_from : ℕ → List ℕ → ℕ → List BasicBlock
create_from id [] func_end = []
create_from id (start ∷ rest) func_end =
    record {
      id = id;
      start_addr = start;
      end_addr = elim rest [ [] ↦ func_end | next ∷ _ ↦ next ];
      successors = [];
      predecessors = [];
    }
    ∷ create_from (suc id) rest func_end

unfoldable pub create_blocks : List ℕ → ℕ → List BasicBlock
create_blocks starts func_end = create_from 0 starts func_end

unfoldable pub find_last_instr : List DecodedInstr → ℕ → ℕ → Option DecodedInstr
find_last_instr instrs start stop = find (λ i. leb start i.addr && ltb i.addr stop) (reverse instrs)

unfoldable pub fallthrough_edge : ℕ → ℕ → List ℕ
fallthrough_edge bid n = if ltb (bid + 1) n then (bid + 1) ∷ [] else []

-- `addr_to_block.get(&addr)`: the block that starts at an address.
unfoldable pub block_at : List BasicBlock → ℕ → Option ℕ
block_at [] addr = none
block_at (b ∷ blocks) addr = elim (b.start_addr == addr) [
  | true ↦ some b.id
  | false ↦ block_at blocks addr
]

unfoldable pub resolve_targets : List BasicBlock → List ℕ → List ℕ
resolve_targets blocks [] = []
resolve_targets blocks (t ∷ targets) =
    elim (block_at blocks t) [ none ↦ [] | some id ↦ id ∷ [] ] ++ resolve_targets blocks targets

-- The targets of a conditional branch, behind the edges already found, each once.
unfoldable pub add_targets : List BasicBlock → List ℕ → List ℕ → List ℕ
add_targets blocks [] e = e
add_targets blocks (t ∷ targets) e =
    add_targets blocks targets
      (elim (block_at blocks t) [ none ↦ e | some id ↦ if contains e id then e else e ++ id ∷ [] ])

-- `(0..n).collect()`
unfoldable pub range : ℕ → List ℕ
range zero = []
range (suc n) = range n ++ n ∷ []

-- The match of `compute_edges` on the flow of the last instruction.
unfoldable pub edges_by_flow : FlowType → DecodedInstr → ℕ → ℕ → FuncMap → List BasicBlock → List ℕ
edges_by_flow FlowType.normal last bid n funcs blocks = fallthrough_edge bid n
edges_by_flow FlowType.indirect_call last bid n funcs blocks = fallthrough_edge bid n
edges_by_flow FlowType.call last bid n funcs blocks =
    if is_noreturn_call last funcs [] then [] else fallthrough_edge bid n
edges_by_flow FlowType.unconditional_branch last bid n funcs blocks =
    resolve_targets blocks last.targets
edges_by_flow FlowType.conditional_branch last bid n funcs blocks =
    add_targets blocks last.targets (fallthrough_edge bid n)
edges_by_flow FlowType.return last bid n funcs blocks = []
edges_by_flow FlowType.halt last bid n funcs blocks = []
edges_by_flow FlowType.indirect_branch last bid n funcs blocks = range n

unfoldable pub compute_edges : DecodedInstr → ℕ → ℕ → FuncMap → List BasicBlock → List ℕ
unfolding edges_by_flow
compute_edges last bid n funcs blocks = edges_by_flow last.flow last bid n funcs blocks

abbrev pub edges_of : List BasicBlock → List DecodedInstr → FuncMap → BasicBlock → List ℕ
edges_of blocks instrs funcs b = elim (find_last_instr instrs b.start_addr b.end_addr) [
  | none ↦ fallthrough_edge b.id (length blocks)
  | some last ↦ compute_edges last b.id (length blocks) funcs blocks
]

abbrev pub with_edges : List BasicBlock → List DecodedInstr → FuncMap → BasicBlock → BasicBlock
with_edges blocks instrs funcs b = record b { successors = edges_of blocks instrs funcs b }

unfoldable pub add_edges : List BasicBlock → List DecodedInstr → FuncMap → List BasicBlock
add_edges blocks instrs funcs = map {B = BasicBlock} (with_edges blocks instrs funcs) blocks

-- What one block adds to the predecessors of block `i`: its number, once for each edge.
unfoldable pub pushes : ℕ → ℕ → List ℕ → List ℕ
pushes i id [] = []
pushes i id (s ∷ successors) = (if s == i then id ∷ [] else []) ++ pushes i id successors

unfoldable pub preds_of : List BasicBlock → ℕ → List ℕ
preds_of [] i = []
preds_of (b ∷ blocks) i = pushes i b.id b.successors ++ preds_of blocks i

-- The predecessors are written by position.
unfoldable pub fill_from : List BasicBlock → ℕ → List BasicBlock → List BasicBlock
fill_from all i [] = []
fill_from all i (b ∷ blocks) =
    record b { predecessors = preds_of all i } ∷ fill_from all (suc i) blocks

unfoldable pub fill_predecessors : List BasicBlock → List BasicBlock
fill_predecessors blocks = fill_from blocks 0 blocks

unfoldable pub find_entry_block : List BasicBlock → ℕ → ℕ
find_entry_block blocks addr = elim (find (λ b. b.start_addr == addr) blocks) [
  | none ↦ 0
  | some b ↦ b.id
]

unfoldable pub build_func_cfg : String → FuncInfo → List DecodedInstr → FuncMap → FuncCfg
build_func_cfg name fi instrs funcs =
    let func_end = wrapping_add fi.addr fi.size in
    let fi_instrs = instrs_between fi.addr func_end instrs in
    let starts = find_block_starts fi_instrs fi.addr func_end in
    let blocks = fill_predecessors (add_edges (create_blocks starts func_end) fi_instrs funcs) in
    record {
      func_name = name;
      func_addr = fi.addr;
      func_size = fi.size;
      blocks = blocks;
      entry_block = find_entry_block blocks fi.addr;
    }

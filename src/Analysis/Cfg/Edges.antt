-- ===== src/Analysis/Cfg/Edges.antt =====
-- src/analysis/cfg.rs: edges lead to blocks of the function.
use trim.Prelude.{
  ℕ, zero, suc, ◌+◌, ◌≤◌, ◌<◌, List, [], ◌∷◌, ◌++◌, some, ltb, ◌≡◌, refl, arith, Bool-cases,
  Option-cases, inl, inr, wrapping_add, All, length, ◌∙◌, sym, nat_eq, String, subst, map, ap,
  length-map,
}
use trim.Prelude.Sets.{contains}
use trim.Types.{FuncInfo, FuncMap, FlowType, DecodedInstr}
use trim.Analysis.Cfg.{is_noreturn_call, instrs_between}
use trim.Analysis.Cfg.Build.{
  BasicBlock, create_from, create_blocks, find_block_starts, find_last_instr, fallthrough_edge,
  block_at, resolve_targets, add_targets, range, edges_by_flow, compute_edges, edges_of, with_edges,
  add_edges, fill_from, fill_predecessors, build_func_cfg,
}

abbrev pub AllBelow : ℕ → List ℕ → Type 0
AllBelow n l = All (λ s. s < n) l

AllBelow-append : (n : ℕ) (xs ys : List ℕ) → AllBelow n xs → AllBelow n ys → AllBelow n (xs ++ ys)
AllBelow-append n [] ys h k = k
AllBelow-append n (x ∷ xs) ys h k = (h.0, AllBelow-append n xs ys h.1 k)

AllBelow-mono : (n m : ℕ) (l : List ℕ) → n ≤ m → AllBelow n l → AllBelow m l
AllBelow-mono n m [] h k = tt
AllBelow-mono n m (x ∷ l) h k = (omega arith, AllBelow-mono n m l h k.1)

range-AllBelow : (n : ℕ) → AllBelow n (range n)
unfolding range
range-AllBelow zero = tt
range-AllBelow (suc n) =
    AllBelow-append (suc n) (range n) (n ∷ [])
      (AllBelow-mono n (suc n) (range n) (omega arith) (range-AllBelow n)) (omega arith, tt)

fallthrough_edge-AllBelow : (bid n : ℕ) → AllBelow n (fallthrough_edge bid n)
unfolding fallthrough_edge
fallthrough_edge-AllBelow bid n = elim (Bool-cases (ltb (bid + 1) n)) [
  | inl more ↦ rw (more, All) (ground arith, tt)
  | inr last ↦ rw (last, All) tt
]

-- Every block is numbered below `n`.
abbrev IdsBelow : ℕ → List BasicBlock → Type 0
IdsBelow n blocks = All (λ b. b.id < n) blocks

block_at-lt :
    (n : ℕ) (blocks : List BasicBlock) (addr id : ℕ)
    → IdsBelow n blocks
    → block_at blocks addr ≡ some id
    → id < n
unfolding block_at
block_at-lt n [] addr id h k = cc
block_at-lt n (b ∷ blocks) addr id h k = ground (arith, block_at-lt n blocks addr id)

resolve_targets-AllBelow :
    (n : ℕ) (blocks : List BasicBlock) (ts : List ℕ)
    → IdsBelow n blocks
    → AllBelow n (resolve_targets blocks ts)
unfolding resolve_targets
resolve_targets-AllBelow n blocks [] h = tt
resolve_targets-AllBelow n blocks (t ∷ ts) h =
    let rest = resolve_targets-AllBelow n blocks ts h in
    elim (Option-cases (block_at blocks t)) [
      | inl missing ↦ rw missing rest
      | inr (id, found) ↦ rw found (block_at-lt n blocks t id h found, rest)
    ]

add_targets-AllBelow :
    (n : ℕ) (blocks : List BasicBlock) (ts e : List ℕ)
    → IdsBelow n blocks
    → AllBelow n e
    → AllBelow n (add_targets blocks ts e)
unfolding add_targets
add_targets-AllBelow n blocks [] e h k = k
add_targets-AllBelow n blocks (t ∷ ts) e h k = elim (Option-cases (block_at blocks t)) [
  | inl missing ↦ rw missing (add_targets-AllBelow n blocks ts e h k)
  | inr (id, found) ↦ rw found (elim (Bool-cases (contains e id)) [
    | inl old ↦ rw old (add_targets-AllBelow n blocks ts e h k)
    | inr new ↦ rw new (
        add_targets-AllBelow n blocks ts (e ++ id ∷ []) h
          (AllBelow-append n e (id ∷ []) k (block_at-lt n blocks t id h found, tt)))
  ])
]

edges_by_flow-AllBelow :
    (flow : FlowType) (last : DecodedInstr) (bid n : ℕ) (funcs : FuncMap) (blocks : List BasicBlock)
    → IdsBelow n blocks
    → AllBelow n (edges_by_flow flow last bid n funcs blocks)
unfolding edges_by_flow
edges_by_flow-AllBelow FlowType.normal last bid n funcs blocks h = fallthrough_edge-AllBelow bid n
edges_by_flow-AllBelow FlowType.indirect_call last bid n funcs blocks h =
    fallthrough_edge-AllBelow bid n
edges_by_flow-AllBelow FlowType.call last bid n funcs blocks h =
    elim (Bool-cases (is_noreturn_call last funcs [])) [
      | inl ends ↦ rw ends tt
      | inr goes_on ↦ rw goes_on (fallthrough_edge-AllBelow bid n)
    ]
edges_by_flow-AllBelow FlowType.unconditional_branch last bid n funcs blocks h =
    resolve_targets-AllBelow n blocks last.targets h
edges_by_flow-AllBelow FlowType.conditional_branch last bid n funcs blocks h =
    add_targets-AllBelow n blocks last.targets (fallthrough_edge bid n) h
      (fallthrough_edge-AllBelow bid n)
edges_by_flow-AllBelow FlowType.return last bid n funcs blocks h = tt
edges_by_flow-AllBelow FlowType.halt last bid n funcs blocks h = tt
edges_by_flow-AllBelow FlowType.indirect_branch last bid n funcs blocks h = range-AllBelow n

edges_of-AllBelow :
    (blocks : List BasicBlock) (instrs : List DecodedInstr) (funcs : FuncMap) (b : BasicBlock)
    → IdsBelow (length blocks) blocks
    → AllBelow (length blocks) (edges_of blocks instrs funcs b)
unfolding compute_edges
edges_of-AllBelow blocks instrs funcs b h =
    elim (Option-cases (find_last_instr instrs b.start_addr b.end_addr)) [
      | inl missing ↦ rw (missing, edges_of) (fallthrough_edge-AllBelow b.id (length blocks))
      | inr (last, found) ↦
          rw (found, edges_of)
            (edges_by_flow-AllBelow last.flow last b.id (length blocks) funcs blocks h)
    ]

create_from-IdsBelow :
    (id stop n : ℕ) (xs : List ℕ) → id + length xs ≤ n → IdsBelow n (create_from id xs stop)
unfolding create_from
create_from-IdsBelow id stop n [] h = tt
create_from-IdsBelow id stop n (x ∷ xs) h =
    (omega arith, create_from-IdsBelow (suc id) stop n xs (omega arith))

length-create_from : (id stop : ℕ) (xs : List ℕ) → length (create_from id xs stop) ≡ length xs
unfolding create_from
length-create_from id stop [] = refl
length-create_from id stop (x ∷ xs) = ap suc (length-create_from (suc id) stop xs)

-- Every edge of the blocks leads to a block below `n`.
abbrev pub EdgesBelow : ℕ → List BasicBlock → Type 0
EdgesBelow n blocks = All (λ b. AllBelow n b.successors) blocks

with_edges-EdgesBelow :
    (all : List BasicBlock) (instrs : List DecodedInstr) (funcs : FuncMap) (l : List BasicBlock)
    → IdsBelow (length all) all
    → EdgesBelow (length all) (map {B = BasicBlock} (with_edges all instrs funcs) l)
with_edges-EdgesBelow all instrs funcs [] h = tt
with_edges-EdgesBelow all instrs funcs (b ∷ l) h =
    (edges_of-AllBelow all instrs funcs b h, with_edges-EdgesBelow all instrs funcs l h)

fill_from-EdgesBelow :
    (n i : ℕ) (all l : List BasicBlock) → EdgesBelow n l → EdgesBelow n (fill_from all i l)
unfolding fill_from
fill_from-EdgesBelow n i all [] h = tt
fill_from-EdgesBelow n i all (b ∷ l) h = (h.0, fill_from-EdgesBelow n (suc i) all l h.1)

length-fill_from : (i : ℕ) (all l : List BasicBlock) → length (fill_from all i l) ≡ length l
unfolding fill_from
length-fill_from i all [] = refl
length-fill_from i all (b ∷ l) = ap suc (length-fill_from (suc i) all l)

-- In a graph that `build_func_cfg` makes, whatever the instructions are, every successor of every
-- block is the number of a block of the graph.
pub build_func_cfg-EdgesBelow :
    (name : String) (fi : FuncInfo) (instrs : List DecodedInstr) (funcs : FuncMap)
    → EdgesBelow
        (length (build_func_cfg name fi instrs funcs).blocks)
        (build_func_cfg name fi instrs funcs).blocks
unfolding build_func_cfg fill_predecessors add_edges create_blocks
build_func_cfg-EdgesBelow name fi instrs funcs =
    let stop = wrapping_add fi.addr fi.size in
    let own = instrs_between fi.addr stop instrs in
    let starts = find_block_starts own fi.addr stop in
    let blocks = create_from 0 starts stop in
    let edged = map {B = BasicBlock} (with_edges blocks own funcs) blocks in
    let ids =
      create_from-IdsBelow 0 stop (length blocks) starts
        (omega (arith, length-create_from 0 stop starts)) in
    let same : length blocks ≡ length (fill_from edged 0 edged) =
      sym (length-fill_from 0 edged edged ∙ length-map (with_edges blocks own funcs) blocks) in
    subst (λ (n : ℕ). EdgesBelow n (fill_from edged 0 edged)) same
      (fill_from-EdgesBelow (length blocks) 0 edged edged
        (with_edges-EdgesBelow blocks own funcs blocks ids))

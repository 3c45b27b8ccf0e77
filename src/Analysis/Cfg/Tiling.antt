-- ===== src/Analysis/Cfg/Tiling.antt =====
-- src/analysis/cfg.rs: the blocks of a function follow each other from its first byte to its last.
use trim.Prelude.{
  ℕ, suc, ◌+◌, ◌≤◌, ◌<◌, ◌^◌, List, [], ◌∷◌, ◌++◌, leb, ltb, ◌==◌, ◌&&◌, ◌≡◌, refl, arith,
  if◌then◌else◌, Bool-cases, inl, inr, wrapping_add, All, sym, nat_eq, String, subst, map,
}
use trim.Types.{FuncInfo, FuncMap, DecodedInstr}
use trim.Analysis.Cfg.{instrs_between, targets_between}
use trim.Analysis.Cfg.Build.{
  BasicBlock, is_block_terminator, insert_start, insert_all, starts_of, add_starts,
  find_block_starts, create_from, create_blocks, add_edges, with_edges, fill_from,
  fill_predecessors, build_func_cfg,
}

-- Strictly ascending, between `lo` and `b`, both ends excluded.
abbrev Spaced : ℕ → ℕ → List ℕ → Type 0
Spaced lo b [] = Unit
Spaced lo b (x ∷ xs) = (lo < x) × (x < b) × Spaced x b xs

-- From `a` on, strictly ascending and below `b`.
abbrev Begins : ℕ → ℕ → List ℕ → Type 0
Begins a b [] = ⊥
Begins a b (x ∷ xs) = (x ≡ a) × Spaced x b xs

insert_start-Spaced :
    (lo b x : ℕ) (xs : List ℕ) → lo < x → x < b → Spaced lo b xs → Spaced lo b (insert_start x xs)
unfolding insert_start
insert_start-Spaced lo b x [] h k s = (h, k, tt)
insert_start-Spaced lo b x (y ∷ ys) h k s = elim (Bool-cases (ltb x y)) [
  | inl less ↦ rw less (h, k, (ground arith, s.1, s.2))
  | inr more ↦ elim (Bool-cases (x == y)) [
    | inl same ↦ rw (more, same) s
    | inr other ↦ rw (more, other) (s.0, s.1, insert_start-Spaced y b x ys (ground arith) k s.2)
  ]
]

insert_start-Begins :
    (a b x : ℕ) (xs : List ℕ) → a ≤ x → x < b → Begins a b xs → Begins a b (insert_start x xs)
unfolding insert_start
insert_start-Begins a b x [] h k s = absurd s
insert_start-Begins a b x (y ∷ ys) h k s = elim (Bool-cases (ltb x y)) [
  | inl less ↦ absurd (ground arith)
  | inr more ↦ elim (Bool-cases (x == y)) [
    | inl same ↦ rw (more, same) s
    | inr other ↦ rw (more, other) (s.0, insert_start-Spaced y b x ys (ground arith) k s.1)
  ]
]

insert_all-Begins :
    (a b : ℕ) (ts xs : List ℕ)
    → All (λ t. (a ≤ t) × (t < b)) ts
    → Begins a b xs
    → Begins a b (insert_all ts xs)
unfolding insert_all
insert_all-Begins a b [] xs h s = s
insert_all-Begins a b (t ∷ ts) xs h s =
    insert_all-Begins a b ts (insert_start t xs) h.1 (insert_start-Begins a b t xs h.0.0 h.0.1 s)

All-append {ℓ} :
    {A : Type 0} (P : A → Type ℓ) (xs ys : List A) → All P xs → All P ys → All P (xs ++ ys)
All-append P [] ys h k = k
All-append P (x ∷ xs) ys h k = (h.0, All-append P xs ys h.1 k)

targets_between-All :
    (a b : ℕ) (ts : List ℕ) → All (λ t. (a ≤ t) × (t < b)) (targets_between a b ts)
targets_between-All a b [] = tt
targets_between-All a b (t ∷ ts) = elim (Bool-cases (leb a t && ltb t b)) [
  | inl hit ↦ rw (hit, All) ((ground arith, ground arith), targets_between-All a b ts)
  | inr miss ↦ rw (miss, All) (targets_between-All a b ts)
]

-- An instruction of the function, whose end is a 64-bit address.
abbrev pub IsPlaced : ℕ → DecodedInstr → Type 0
IsPlaced a i = (a ≤ i.addr) × (i.addr + i.len < 2 ^ 64)

starts_of-All :
    (a b : ℕ) (i : DecodedInstr) → IsPlaced a i → All (λ t. (a ≤ t) × (t < b)) (starts_of a b i)
starts_of-All a b i placed =
    let next = wrapping_add i.addr i.len in
    let P = λ (t : ℕ). (a ≤ t) × (t < b) in
    let ends = is_block_terminator i.flow && ltb next b in
    let after : All P (if ends then next ∷ [] else []) = elim (Bool-cases ends) [
      | inl stop ↦ rw stop ((omega arith, ground arith), tt)
      | inr go ↦ rw go tt
    ] in
    let branch : All P (if i.is_call then [] else targets_between a b i.targets) =
      elim (Bool-cases i.is_call) [
        | inl call ↦ rw call tt
        | inr other ↦ rw other (targets_between-All a b i.targets)
      ] in
    All-append P (if ends then next ∷ [] else [])
      (if i.is_call then [] else targets_between a b i.targets) after branch

add_starts-Begins :
    (a b : ℕ) (instrs : List DecodedInstr) (xs : List ℕ)
    → All (IsPlaced a) instrs
    → Begins a b xs
    → Begins a b (add_starts instrs a b xs)
unfolding add_starts
add_starts-Begins a b [] xs h s = s
add_starts-Begins a b (i ∷ instrs) xs h s =
    add_starts-Begins a b instrs (insert_all (starts_of a b i) xs) h.1
      (insert_all-Begins a b (starts_of a b i) xs (starts_of-All a b i h.0) s)

find_block_starts-Begins :
    (a b : ℕ) (instrs : List DecodedInstr)
    → a < b
    → All (IsPlaced a) instrs
    → Begins a b (find_block_starts instrs a b)
unfolding find_block_starts insert_start
find_block_starts-Begins a b instrs h placed =
    add_starts-Begins a b instrs (a ∷ []) placed (refl, tt)

-- The blocks, numbered from `id` on, cover `[a, b)`: each is numbered by its position, starts where
-- the one before it ends, and is not empty.
abbrev pub Tiles : ℕ → ℕ → ℕ → List BasicBlock → Type 0
Tiles id a b [] = a ≡ b
Tiles id a b (k ∷ rest) =
    (k.id ≡ id) × (k.start_addr ≡ a) × (a < k.end_addr) × Tiles (suc id) k.end_addr b rest

create_from-Tiles :
    (id a b : ℕ) (xs : List ℕ) → a < b → Spaced a b xs → Tiles id a b (create_from id (a ∷ xs) b)
unfolding create_from
create_from-Tiles id a b [] h s = (refl, refl, h, refl)
create_from-Tiles id a b (x ∷ xs) h s = (refl, refl, s.0, create_from-Tiles (suc id) x b xs s.1 s.2)

create_blocks-Tiles :
    (a b : ℕ) (xs : List ℕ) → a < b → Begins a b xs → Tiles 0 a b (create_blocks xs b)
unfolding create_blocks
create_blocks-Tiles a b [] h s = absurd s
create_blocks-Tiles a b (x ∷ xs) h s =
    subst (λ (y : ℕ). Tiles 0 a b (create_from 0 (y ∷ xs) b)) (sym s.0)
      (create_from-Tiles 0 a b xs h (subst (λ (y : ℕ). Spaced y b xs) s.0 s.1))

with_edges-Tiles :
    (all : List BasicBlock) (instrs : List DecodedInstr) (funcs : FuncMap) (id a b : ℕ)
    (l : List BasicBlock)
    → Tiles id a b l
    → Tiles id a b (map {B = BasicBlock} (with_edges all instrs funcs) l)
with_edges-Tiles all instrs funcs id a b [] t = t
with_edges-Tiles all instrs funcs id a b (k ∷ l) t =
    (t.0, t.1, t.2, with_edges-Tiles all instrs funcs (suc id) k.end_addr b l t.3)

add_edges-Tiles :
    (instrs : List DecodedInstr) (funcs : FuncMap) (id a b : ℕ) (l : List BasicBlock)
    → Tiles id a b l
    → Tiles id a b (add_edges l instrs funcs)
unfolding add_edges
add_edges-Tiles instrs funcs id a b l t = with_edges-Tiles l instrs funcs id a b l t

fill_from-Tiles :
    (all : List BasicBlock) (i id a b : ℕ) (l : List BasicBlock)
    → Tiles id a b l
    → Tiles id a b (fill_from all i l)
unfolding fill_from
fill_from-Tiles all i id a b [] t = t
fill_from-Tiles all i id a b (k ∷ l) t =
    (t.0, t.1, t.2, fill_from-Tiles all (suc i) (suc id) k.end_addr b l t.3)

instrs_between-IsPlaced :
    (a b : ℕ) (instrs : List DecodedInstr)
    → All (λ i. i.addr + i.len < 2 ^ 64) instrs
    → All (IsPlaced a) (instrs_between a b instrs)
instrs_between-IsPlaced a b [] h = tt
instrs_between-IsPlaced a b (i ∷ instrs) h =
    let rest = instrs_between-IsPlaced a b instrs h.1 in
    elim (Bool-cases (leb a i.addr && ltb i.addr b)) [
      | inl hit ↦ rw (hit, All) ((ground arith, h.0), rest)
      | inr miss ↦ rw (miss, All) rest
    ]

-- For a function that is not empty and, like its instructions, ends at a 64-bit address, the blocks
-- of `build_func_cfg` tile the function: they are numbered by their positions, the first starts at
-- the function's address, each later one where the one before it ends, the last ends at the
-- function's end, and none is empty.
pub build_func_cfg-Tiles :
    (name : String) (fi : FuncInfo) (instrs : List DecodedInstr) (funcs : FuncMap)
    → 0 < fi.size
    → fi.addr + fi.size < 2 ^ 64
    → All (λ i. i.addr + i.len < 2 ^ 64) instrs
    → Tiles 0 fi.addr (fi.addr + fi.size) (build_func_cfg name fi instrs funcs).blocks
unfolding build_func_cfg fill_predecessors
build_func_cfg-Tiles name fi instrs funcs pos fits placed =
    let b = fi.addr + fi.size in
    let e : wrapping_add fi.addr fi.size ≡ b = omega arith in
    let own = instrs_between fi.addr b instrs in
    let starts = find_block_starts own fi.addr b in
    let edged = add_edges (create_blocks starts b) own funcs in
    rw e (
      fill_from-Tiles edged 0 0 fi.addr b edged (
        add_edges-Tiles own funcs 0 fi.addr b (create_blocks starts b) (
          create_blocks-Tiles fi.addr b starts (omega arith) (
            find_block_starts-Begins fi.addr b own (omega arith)
              (instrs_between-IsPlaced fi.addr b instrs placed)))))

-- ===== src/Format/Wasm/Scan/Bounds.antt =====
-- src/format/wasm/mod.rs: the scan of a body ends, and what it reports lies in the body.
use trim.Prelude.{
  All-append, ℕ, zero, suc, ◌+◌, ◌-◌, ◌≤◌, ◌<◌, Bool, true, false, List, [], ◌∷◌, ◌++◌, none, some,
  leb, ltb, ◌==◌, ◌||◌, ◌≡◌, refl, arith, if◌then◌else◌, length, get_elem?, take, drop, length-take,
  All, Option-cases, Bool-cases, inl, inr,
}
use trim.Analysis.Cfg.{DeadBlock}
use trim.Format.Wasm.Leb.{read_leb128_u32, skip_leb128}
use trim.Format.Wasm.Scan.{
  WasmFunc, skip_locals, skip_block_type, skip_lebs, instr_end, skip_wasm_instr, Scanner, region,
  scan_step, scan_from, scan_wasm_body_dead, between,
}

skip_leb128-le : (body : List ℕ) (pos : ℕ) → pos ≤ skip_leb128 body pos
unfolding skip_leb128
skip_leb128-le body pos = omega arith

skip_lebs-le : (n : ℕ) (body : List ℕ) (pos : ℕ) → pos ≤ skip_lebs n body pos
unfolding skip_lebs
skip_lebs-le zero body pos = omega arith
skip_lebs-le (suc n) body pos =
    omega (arith, skip_lebs-le n body (skip_leb128 body pos), skip_leb128-le body pos)

read_leb128_u32-le : (body : List ℕ) (pos : ℕ) → pos ≤ (read_leb128_u32 body pos).1
unfolding read_leb128_u32
read_leb128_u32-le body pos = omega arith

skip_block_type-le : (body : List ℕ) (pos : ℕ) → pos ≤ skip_block_type body pos
unfolding skip_block_type
skip_block_type-le body pos = ground (arith, skip_leb128-le body pos)

instr_end-lt : (body : List ℕ) (pos op : ℕ) → pos < instr_end body pos op
unfolding instr_end
instr_end-lt body pos op = ground (
  arith,
  skip_block_type-le body (pos + 1),
  skip_leb128-le body (pos + 1),
  skip_leb128-le body (skip_leb128 body (pos + 1)),
  read_leb128_u32-le body (pos + 1),
  skip_lebs-le ((read_leb128_u32 body (pos + 1)).0 + 1) body (read_leb128_u32 body (pos + 1)).1,
)

skip_wasm_instr-lt : (body : List ℕ) (pos : ℕ) → pos < length body → pos < skip_wasm_instr body pos
unfolding skip_wasm_instr
skip_wasm_instr-lt body pos h = elim (Option-cases (get_elem? body pos)) [
  | inl none_left ↦ rw (skip_wasm_instr, none_left) h
  | inr (op, found) ↦ rw (skip_wasm_instr, found) (instr_end-lt body pos op)
]

-- At least two bytes, before position `pos` of the body.
abbrev pub IsRegion : WasmFunc → ℕ → DeadBlock → Type 0
IsRegion func pos block =
    (block.func_name ≡ func.name)
    × (func.body_offset ≤ block.addr)
    × (2 ≤ block.size)
    × (block.addr + block.size ≤ func.body_offset + pos)

-- The dead code, if there is any, started before `pos`.
abbrev Started : ℕ → Scanner → Type 0
Started pos (none, depth) = Unit
Started pos (some ds, depth) = ds ≤ pos

region-IsRegion :
    (func : WasmFunc) (ds pos : ℕ) → ds ≤ pos → All (IsRegion func pos) (region func ds pos)
region-IsRegion func ds pos h = elim (Bool-cases (leb 2 (pos - ds))) [
  | inl long ↦ rw long ((refl, omega arith, ground arith, omega arith), tt)
  | inr short ↦ rw short tt
]

-- What a round promises.
record IsStep (func : WasmFunc) (pos : ℕ) (r : List DeadBlock × ℕ × Scanner) : Type 0 where
  found : All (IsRegion func pos) r.0
  further : pos < r.1
  started : Started r.1 r.2

-- A property of both branches.
if_both {ℓ κ} :
    {A : Type ℓ} (P : A → Type κ) (b : Bool) {x y : A} → P x → P y → P (if b then x else y)
if_both P true px py = px
if_both P false px py = py

-- A round that reports nothing.
quiet :
    (func : WasmFunc) (pos p : ℕ) (state : Scanner)
    → pos < p
    → Started p state
    → IsStep func pos ([], p, state)
quiet func pos p state h s = record { found = tt; further = h; started = s }

-- A round that ends a region.
ending :
    (func : WasmFunc) (pos ds depth : ℕ)
    → ds ≤ pos
    → IsStep func pos (region func ds pos, pos + 1, (none, depth))
ending func pos ds depth h = record {
  found = region-IsRegion func ds pos h;
  further = omega arith;
  started = tt;
}

scan_step-IsStep :
    (func : WasmFunc) (body : List ℕ) (pos op : ℕ) (state : Scanner)
    → pos < length body
    → Started pos state
    → IsStep func pos (scan_step func body pos op state)
unfolding scan_step
scan_step-IsStep func body pos op (none, depth) h s =
    let P = IsStep func pos in
    let block = skip_block_type body (pos + 1) in
    let label = skip_leb128 body (pos + 1) in
    let instr = skip_wasm_instr body pos in
    let block_lt = skip_block_type-le body (pos + 1) in
    let label_lt = skip_leb128-le body (pos + 1) in
    if_both P (between 2 4 op) (quiet func pos block (none, depth + 1) (omega arith) tt) (
      if_both P (op == 5) (quiet func pos (pos + 1) (none, depth) (omega arith) tt) (
        if_both P (op == 0xb) (quiet func pos (pos + 1) (none, depth - 1) (omega arith) tt) (
          if_both P (op == 0 || op == 0xf)
            (quiet func pos (pos + 1) (some (pos + 1), depth) (omega arith) (omega arith))
            (if_both P (op == 0xc)
              (quiet func pos label (some label, depth) (omega arith) (omega arith))
              (quiet func pos instr (none, depth) (skip_wasm_instr-lt body pos h) tt)))))
scan_step-IsStep func body pos op (some ds, depth) h s =
    let P = IsStep func pos in
    let block = skip_block_type body (pos + 1) in
    let instr = skip_wasm_instr body pos in
    let block_lt = skip_block_type-le body (pos + 1) in
    let instr_lt = skip_wasm_instr-lt body pos h in
    if_both P (between 2 4 op)
      (quiet func pos block (some ds, depth + 1) (omega arith) (omega arith))
      (if_both P (op == 5)
        (if_both P (depth == 0) (ending func pos ds depth s)
          (quiet func pos (pos + 1) (some ds, depth) (omega arith) (omega arith)))
        (if_both P (op == 0xb)
          (if_both P (depth == 0) (ending func pos ds depth s)
            (quiet func pos (pos + 1) (some ds, depth - 1) (omega arith) (omega arith)))
          (quiet func pos instr (some ds, depth) instr_lt (omega arith))))

IsRegion-weaken :
    (func : WasmFunc) (p q : ℕ) (blocks : List DeadBlock)
    → p ≤ q
    → All (IsRegion func p) blocks
    → All (IsRegion func q) blocks
IsRegion-weaken func p q [] h k = tt
IsRegion-weaken func p q (b ∷ blocks) h k =
    ((k.0.0, k.0.1, k.0.2, omega (arith, k.0.3)), IsRegion-weaken func p q blocks h k.1)

lt-length_of_get_elem? : (xs : List ℕ) (i x : ℕ) → get_elem? xs i ≡ some x → i < length xs
lt-length_of_get_elem? [] i x h = absurd cc
lt-length_of_get_elem? (y ∷ xs) zero x h = omega arith
lt-length_of_get_elem? (y ∷ xs) (suc i) x h = omega (arith, lt-length_of_get_elem? xs i x h)

scan_from-ends :
    (fuel : ℕ) (func : WasmFunc) (body : List ℕ) (pos : ℕ) (state : Scanner)
    → length body - pos < fuel
    → Started pos state
    → (blocks : List DeadBlock) × (scan_from fuel func body pos state ≡ some blocks)
      × All (IsRegion func (length body)) blocks
unfolding scan_from
scan_from-ends zero func body pos state h s = absurd (omega arith)
scan_from-ends (suc fuel) func body pos state h s = elim (Option-cases (get_elem? body pos)) [
  | inl over ↦ ([], rw (scan_from, over) refl, tt)
  | inr (op, found) ↦
      let inside = lt-length_of_get_elem? body pos op found in
      let step = scan_step-IsStep func body pos op state inside s in
      let (more, rest, all) =
        scan_from-ends fuel func body (scan_step func body pos op state).1
          (scan_step func body pos op state).2 (omega (arith, step.further, h)) step.started in
      (
        (scan_step func body pos op state).0 ++ more,
        rw (scan_from, found) (rw rest refl),
        All-append (IsRegion func (length body)) (scan_step func body pos op state).0 more
            (IsRegion-weaken func pos (length body) _ (omega arith) step.found) all,
      )
]

-- The scan of a body ends, whatever its bytes are; each region it reports bears the name of the
-- function, has at least two bytes, and lies inside the function's body.
pub scan_wasm_body_dead_ends :
    (bytes : List ℕ) (func : WasmFunc)
    → (blocks : List DeadBlock) × (scan_wasm_body_dead bytes func ≡ some blocks)
      × All (IsRegion func func.body_size) blocks
unfolding scan_wasm_body_dead
scan_wasm_body_dead_ends bytes func =
    let body = take func.body_size (drop func.body_offset bytes) in
    elim (Bool-cases (
      leb (length bytes) func.body_offset
      || ltb (length bytes) (func.body_offset + func.body_size))) [
        | inl outside ↦ ([], rw outside refl, tt)
        | inr inside ↦
            let (blocks, ends, all) =
              scan_from-ends (suc (length body)) func body (skip_locals body 0) (none, 0)
                (omega arith) tt in
            (
              blocks,
              rw inside ends,
              IsRegion-weaken func (length body) func.body_size blocks
                  (omega (arith, length-take func.body_size (drop func.body_offset bytes))) all,
            )
      ]

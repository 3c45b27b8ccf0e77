-- ===== src/Format/Wasm/Scan.antt =====
-- src/format/wasm/mod.rs: the dead code in function bodies.
pub mod Bounds
use trim.Prelude.{
  ℕ, zero, suc, ◌+◌, ◌-◌, Bool, true, false, List, [], ◌∷◌, ◌++◌, Option, none, some, leb, ltb,
  ◌==◌, ◌&&◌, ◌||◌, if◌then◌else◌, String, length, get_elem?, take, drop,
}
use trim.Analysis.Cfg.{DeadBlock}
use trim.Format.Wasm.Leb.{read_leb128_u32, skip_leb128}

-- One function of a module.
pub record WasmFunc : Type 0 where
  pub index : ℕ
  pub name : String
  pub body_offset : ℕ
  pub body_size : ℕ

-- The loop of `skip_locals` over the groups of locals.
unfoldable pub locals_from : ℕ → List ℕ → ℕ → ℕ
locals_from zero body pos = pos
locals_from (suc count) body pos =
    let p = (read_leb128_u32 body pos).1 in
    locals_from count body (if ltb p (length body) then p + 1 else p)

unfoldable pub skip_locals : List ℕ → ℕ → ℕ
skip_locals body pos =
    if leb (length body) pos
    then pos
    else (let (count, new_pos) = read_leb128_u32 body pos in locals_from count body new_pos)

unfoldable pub skip_block_type : List ℕ → ℕ → ℕ
skip_block_type body pos = elim (get_elem? body pos) [
  | none ↦ pos
  | some b ↦ if b == 0x40 || (leb 0x60 b && leb b 0x7f) then pos + 1 else skip_leb128 body pos
]

-- `skip_leb128` as often as a vector has elements.
unfoldable pub skip_lebs : ℕ → List ℕ → ℕ → ℕ
skip_lebs zero body pos = pos
skip_lebs (suc n) body pos = skip_lebs n body (skip_leb128 body pos)

abbrev pub between : ℕ → ℕ → ℕ → Bool
between lo hi op = leb lo op && leb op hi

-- A constant, a call, a branch, or an access to a variable: one number.
abbrev pub has_one_leb : ℕ → Bool
has_one_leb op =
    (op == 0x0c || op == 0x0d)
    || ((op == 0x10 || between 0x20 0x24 op) || (op == 0x41 || op == 0x42))

-- An indirect call or an access to memory: two.
abbrev pub has_two_lebs : ℕ → Bool
has_two_lebs op = op == 0x11 || between 0x28 0x3e op

-- The match of `skip_wasm_instr`, for an instruction at `pos`.
unfoldable pub instr_end : List ℕ → ℕ → ℕ → ℕ
instr_end body pos op =
    let (count, labels) = read_leb128_u32 body (pos + 1) in
    let one = skip_leb128 body (pos + 1) in
    if between 0x02 0x04 op
    then skip_block_type body (pos + 1)
    else if has_one_leb op
    then one
    else if op == 0x0e
    then skip_lebs (count + 1) body labels
    else if has_two_lebs op
    then skip_leb128 body one
    else if (op == 0x3f || op == 0x40) || op == 0xd0
    then pos + 2
    else if op == 0x43
    then pos + 5
    else if op == 0x44
    then pos + 9
    else if between 0xfc 0xfe op
    then one
    else pos + 1

unfoldable pub skip_wasm_instr : List ℕ → ℕ → ℕ
skip_wasm_instr body pos = elim (get_elem? body pos) [
  | none ↦ length body
  | some op ↦ instr_end body pos op
]

-- The state of the loop: where dead code started, and the nesting.
abbrev pub Scanner : Type 0
Scanner = Option ℕ × ℕ

-- A dead region ends at `pos`, if it has two bytes.
abbrev pub region : WasmFunc → ℕ → ℕ → List DeadBlock
region func ds pos =
    if leb 2 (pos - ds)
    then record { func_name = func.name; addr = func.body_offset + ds; size = pos - ds } ∷ []
    else []

-- One round of the loop on the opcode at `pos`: what is reported, the next position, and the state.
unfoldable pub scan_step : WasmFunc → List ℕ → ℕ → ℕ → Scanner → List DeadBlock × ℕ × Scanner
scan_step func body pos op (none, depth) =
    if between 0x02 0x04 op
    then ([], skip_block_type body (pos + 1), (none, depth + 1))
    else if op == 0x05
    then ([], pos + 1, (none, depth))
    else if op == 0x0b
    then ([], pos + 1, (none, depth - 1))
    else if op == 0x00 || op == 0x0f
    then ([], pos + 1, (some (pos + 1), depth))
    else if op == 0x0c
    then (let p = skip_leb128 body (pos + 1) in ([], p, (some p, depth)))
    else ([], skip_wasm_instr body pos, (none, depth))
scan_step func body pos op (some ds, depth) =
    if between 0x02 0x04 op
    then ([], skip_block_type body (pos + 1), (some ds, depth + 1))
    else if op == 0x05
    then (if depth == 0
        then (region func ds pos, pos + 1, (none, depth))
        else ([], pos + 1, (some ds, depth)))
    else if op == 0x0b
    then (if depth == 0
        then (region func ds pos, pos + 1, (none, depth))
        else ([], pos + 1, (some ds, depth - 1)))
    else ([], skip_wasm_instr body pos, (some ds, depth))

-- `none` would mean that the fuel ran out.
unfoldable pub scan_from : ℕ → WasmFunc → List ℕ → ℕ → Scanner → Option (List DeadBlock)
scan_from zero func body pos state = none
scan_from (suc fuel) func body pos state = elim (get_elem? body pos) [
  | none ↦ some []
  | some op ↦
      let (found, pos', state') = scan_step func body pos op state in
      elim (scan_from fuel func body pos' state') [ none ↦ none | some more ↦ some (found ++ more) ]
]

-- Each round takes a byte of the body at least.
unfoldable pub scan_wasm_body_dead : List ℕ → WasmFunc → Option (List DeadBlock)
scan_wasm_body_dead bytes func =
    let start = func.body_offset in
    let stop = start + func.body_size in
    let body = take func.body_size (drop start bytes) in
    if leb (length bytes) start || ltb (length bytes) stop
    then some []
    else scan_from (suc (length body)) func body (skip_locals body 0) (none, 0)

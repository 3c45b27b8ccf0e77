-- ===== src/Format/Java/Bytecode/Dead.antt =====
-- src/format/java/bytecode.rs: what a region that `scan_dead_in_method` reports holds.
use trim.Prelude.{
  ℕ, zero, suc, ◌+◌, ◌-◌, ◌%◌, ◌^◌, ◌≤◌, ◌<◌, Bool, true, false, List, [], ◌∷◌, Option, none, some,
  ◌≡◌, subst, arith, leb, ltb, if◌then◌else◌, ◌&&◌, ◌==◌, String, length, take, drop, All,
  All-append, Bool-cases, inl, inr, nat_eq, length-take, length-drop,
}
use trim.Prelude.Sets.{contains}
use trim.Analysis.Cfg.{DeadBlock}
use trim.Format.Java.Classfile.{ClassFile, cp_utf8}
use trim.Format.Java.Bytecode.{
  opcode_length, collect_branch_targets, is_terminator, region, dead_round, dead_from,
  scan_dead_in_method,
}

-- The places at which a walk from `pos` finds an instruction.
unfoldable pub instrs_from : ℕ → ℕ → List ℕ → List ℕ
instrs_from skip pos [] = []
instrs_from (suc skip) pos (op ∷ code) = instrs_from skip (pos + 1) code
instrs_from zero pos (op ∷ code) =
    pos ∷ instrs_from (opcode_length op pos (op ∷ code) - 1) (pos + 1) code

-- They are not before it.
pub instrs_from-ge :
    (skip pos v : ℕ) (code : List ℕ) → contains (instrs_from skip pos code) v ≡ true → pos ≤ v
unfolding instrs_from
instrs_from-ge skip pos v [] h = absurd cc
instrs_from-ge (suc skip) pos v (op ∷ code) h =
    omega (arith, instrs_from-ge skip (pos + 1) v code h)
instrs_from-ge zero pos v (op ∷ code) h = elim (Bool-cases (pos == v)) [
  | inl here ↦ ground arith
  | inr later ↦ omega (
    arith,
    instrs_from-ge (opcode_length op pos (op ∷ code) - 1) (pos + 1) v code (rw later at h),
  )
]

opcode_length-pos : (op pos : ℕ) (code : List ℕ) → 1 ≤ opcode_length op pos code
unfolding opcode_length
opcode_length-pos op pos code = ground arith

module _ (targets : List ℕ) (code_offset : ℕ) (name : String) (visited : List ℕ) where
  -- No instruction of the walk from `lo` up to `hi` is a branch target.
  abbrev pub Free : ℕ → ℕ → Type 0
  Free lo hi =
      (v : ℕ)
      → contains visited v ≡ true
      → lo ≤ v
      → v < hi
      → contains targets ((v - code_offset) % 2 ^ 32) ≡ false

  -- A region between two places that no branch leads into.
  abbrev pub IsDead : ℕ → ℕ → DeadBlock → Type 0
  IsDead lo hi b =
      (lo ≤ b.addr) × (2 ≤ b.size) × (b.addr + b.size ≤ hi) × Free b.addr (b.addr + b.size)

  -- The dead code, if there is any, where the walk is at `pos` with `skip` bytes to skip.
  Running : ℕ → ℕ → ℕ → Option ℕ → Type 0
  Running lo pos skip none = Unit
  Running lo pos skip (some ds) = (lo ≤ ds) × (ds ≤ pos + skip) × Free ds pos

  -- The walk goes on with the rest of the visited places.
  Ahead : ℕ → ℕ → List ℕ → Type 0
  Ahead skip pos code =
      (v : ℕ) → contains visited v ≡ true → pos ≤ v → contains (instrs_from skip pos code) v ≡ true

  region-IsDead : (lo ds pos : ℕ) → lo ≤ ds → Free ds pos → All (IsDead lo pos) (region name ds pos)
  region-IsDead lo ds pos low free = elim (Bool-cases (leb 2 (pos - ds))) [
    | inl long ↦
        let e : ds + (pos - ds) ≡ pos = ground arith in
        rw long ((low, ground arith, omega (arith, e), rw e free), tt)
    | inr short ↦ rw short tt
  ]

  Free-suc :
      (lo pos : ℕ)
      → Free lo pos
      → (contains visited pos ≡ true → contains targets ((pos - code_offset) % 2 ^ 32) ≡ false)
      → Free lo (pos + 1)
  Free-suc lo pos free here v seen low high = elim (Bool-cases (v == pos)) [
    | inl same ↦
        let e : v ≡ pos = ground arith in
        rw e (here (subst (λ (x : ℕ). contains visited x ≡ true) e seen))
    | inr other ↦ free v seen low (ground arith)
  ]

  -- What a round at an instruction reports, and the dead code after it.
  IsRound : ℕ → ℕ → ℕ → List DeadBlock × Option ℕ → Type 0
  IsRound lo pos skip r = All (IsDead lo pos) r.0 × Running lo (pos + 1) skip r.1

  weaken :
      (lo a b : ℕ) (blocks : List DeadBlock)
      → a ≤ b
      → All (IsDead lo a) blocks
      → All (IsDead lo b) blocks
  weaken lo a b [] h all = tt
  weaken lo a b (x ∷ xs) h ((low, size, high, free), rest) =
      ((low, size, omega arith, free), weaken lo a b xs h rest)

  -- The dead code that starts after a terminator.
  next-Running :
      (lo pos len : ℕ) (ends : Bool)
      → lo ≤ pos
      → 1 ≤ len
      → Running lo (pos + 1) (len - 1) (if ends then some (pos + len) else none)
  unfolding Running
  next-Running lo pos len true low h =
      (omega arith, omega arith, λ v seen from below. absurd (omega arith))
  next-Running lo pos len false low h = tt

  dead_round-IsRound :
      (lo pos op : ℕ) (code : List ℕ) (dead_start : Option ℕ)
      → lo ≤ pos
      → Running lo pos 0 dead_start
      → IsRound lo pos
          (opcode_length op pos (op ∷ code) - 1)
          (dead_round targets code_offset name dead_start pos (op ∷ code) op)
  unfolding dead_round Running IsRound
  dead_round-IsRound lo pos op code none low running =
      let len = opcode_length op pos (op ∷ code) in
      (
        tt,
        next-Running lo pos len (is_terminator op && ltb len (length (op ∷ code))) low
            (opcode_length-pos op pos (op ∷ code)),
      )
  dead_round-IsRound lo pos op code (some ds) low running =
      let len = opcode_length op pos (op ∷ code) in
      elim (Bool-cases (contains targets ((pos - code_offset) % 2 ^ 32))) [
        | inl target ↦ rw target (
          region-IsDead lo ds pos running.0 running.2,
          next-Running lo pos len (is_terminator op && ltb len (length (op ∷ code))) low
              (opcode_length-pos op pos (op ∷ code)),
        )
        | inr free ↦
            rw free (tt, (running.0, omega arith, Free-suc ds pos running.2 (λ seen. free)))
      ]

  -- A byte of an operand is no instruction.
  skip-Running :
      (lo skip pos op : ℕ) (code : List ℕ) (dead_start : Option ℕ)
      → Ahead (suc skip) pos (op ∷ code)
      → Running lo pos (suc skip) dead_start
      → Running lo (pos + 1) skip dead_start
  unfolding Running instrs_from Ahead
  skip-Running lo skip pos op code none ahead running = tt
  skip-Running lo skip pos op code (some ds) ahead running = (
    running.0,
    omega arith,
    Free-suc ds pos running.2 (λ seen.
        absurd
          (omega (arith, instrs_from-ge skip (pos + 1) pos code (ahead pos seen (omega arith))))),
  )

  dead_from-IsDead :
      (lo skip pos : ℕ) (code : List ℕ) (dead_start : Option ℕ)
      → lo ≤ pos
      → Ahead skip pos code
      → Running lo pos skip dead_start
      → All
          (IsDead lo (pos + length code))
          (dead_from targets code_offset name dead_start skip pos code)
  unfolding dead_from Running IsRound instrs_from Ahead
  dead_from-IsDead lo skip pos [] none low ahead running = tt
  dead_from-IsDead lo skip pos [] (some ds) low ahead running =
      let e : pos + 0 ≡ pos = omega arith in rw e (region-IsDead lo ds pos running.0 running.2)
  dead_from-IsDead lo (suc skip) pos (op ∷ code) dead_start low ahead running =
      let e : pos + suc (length code) ≡ pos + 1 + length code = omega arith in
      rw e (
        dead_from-IsDead lo skip (pos + 1) code dead_start (omega arith)
          (λ v seen le. ahead v seen (omega arith))
          (skip-Running lo skip pos op code dead_start ahead running))
  dead_from-IsDead lo zero pos (op ∷ code) dead_start low ahead running =
      let e : pos + suc (length code) ≡ pos + 1 + length code = omega arith in
      let skip = opcode_length op pos (op ∷ code) - 1 in
      let r = dead_round targets code_offset name dead_start pos (op ∷ code) op in
      let round = dead_round-IsRound lo pos op code dead_start low running in
      let later : Ahead skip (pos + 1) code =
        λ v seen le. ground (arith, ahead v seen (omega arith)) in
      rw e (
        All-append (IsDead lo (pos + 1 + length code)) r.0
          (dead_from targets code_offset name r.1 skip (pos + 1) code)
          (weaken lo pos (pos + 1 + length code) r.0 (omega arith) round.0)
          (dead_from-IsDead lo skip (pos + 1) code r.1 (omega arith) later round.1))

-- What the scan reports of a method's code lies in the code and has at least two bytes; and of the
-- instructions that a walk over the code meets in there, none is one of the collected targets.
pub scan_dead_in_method-IsDead :
    (bytes : List ℕ) (cf : ClassFile) (code_offset code_length name_idx : ℕ)
    → let code = take code_length (drop code_offset bytes) in
      All
        (IsDead
          (collect_branch_targets code_offset code)
          code_offset
          (cp_utf8 cf.constant_pool name_idx)
          (instrs_from 0 code_offset code)
          code_offset
          (code_offset + code_length))
        (scan_dead_in_method bytes cf code_offset code_length name_idx)
unfolding scan_dead_in_method Ahead Running
scan_dead_in_method-IsDead bytes cf code_offset code_length name_idx =
    let code = take code_length (drop code_offset bytes) in
    let targets = collect_branch_targets code_offset code in
    let name = cp_utf8 cf.constant_pool name_idx in
    elim (Bool-cases (ltb (length bytes) (code_offset + code_length))) [
      | inl past ↦ rw past tt
      | inr fits ↦
          let size : length code ≡ code_length = ground (
            arith,
            length-take code_length (drop code_offset bytes),
            length-drop code_offset bytes,
          ) in
          rw fits (
            subst
              (λ (n : ℕ).
                All
                  (IsDead targets code_offset name (instrs_from 0 code_offset code) code_offset
                    (code_offset + n))
                  (dead_from targets code_offset name none 0 code_offset code))
              size
              (dead_from-IsDead targets code_offset name (instrs_from 0 code_offset code)
                code_offset 0 code_offset code none (omega arith) (λ v seen le. seen) tt))
    ]

-- ===== src/Format/Java/Bytecode/Targets.antt =====
-- src/format/java/bytecode.rs: which places of a method's code the branches and switches lead to, and
-- that no region that `scan_dead_in_method` reports has one of them.
use trim.Prelude.{
  ℕ, zero, suc, ◌+◌, ◌-◌, ◌*◌, ◌/◌, ◌%◌, ◌^◌, ◌≤◌, ◌<◌, true, false, List, [], ◌∷◌, some, ◌≡◌, refl,
  subst, arith, leb, ◌==◌, length, take, drop, get_elem?, min, All, le→leb, length-take,
  length-drop, Bool-cases, inl, inr, nat_eq, String,
}
use trim.Prelude.Sets.{contains, contains-append}
use trim.Analysis.Cfg.{DeadBlock}
use trim.Format.Java.Classfile.{ClassFile, be_bytes, cp_utf8}
use trim.Format.Java.Bytecode.{
  opcode_length, switch_pad, table_size, lookup_size, table_entries, lookup_entries,
  is_short_branch, is_wide_branch, code_target, entry_targets, targets_at, targets_from,
  collect_branch_targets, scan_dead_in_method,
}
use trim.Format.Java.Bytecode.Dead.{instrs_from, instrs_from-ge, IsDead, scan_dead_in_method-IsDead}

-- The place that the offset at `o` of the instruction at `pc` stands for.
abbrev word_target : ℕ → List ℕ → ℕ → ℕ
word_target pc code o = code_target pc 32 (be_bytes 4 code o)

-- The instruction that `code` starts with, at the place `pc` of a method's code, leads to `t`: a
-- branch with an offset of two bytes or of four, the default of a switch, or the entry `j` of one.
pub data LeadsTo (pc : ℕ) (code : List ℕ) (t : ℕ) : Type 0 where
  short :
      (op : ℕ)
      → get_elem? code 0 ≡ some op
      → is_short_branch op ≡ true
      → 3 ≤ length code
      → t ≡ code_target pc 16 (be_bytes 2 code 1)
      → LeadsTo pc code t
  wide :
      (op : ℕ)
      → get_elem? code 0 ≡ some op
      → is_wide_branch op ≡ true
      → 5 ≤ length code
      → t ≡ word_target pc code 1
      → LeadsTo pc code t
  table_default :
      get_elem? code 0 ≡ some 0xaa
      → 1 + switch_pad pc + 12 ≤ length code
      → t ≡ word_target pc code (1 + switch_pad pc)
      → LeadsTo pc code t
  table_entry :
      (j : ℕ)
      → get_elem? code 0 ≡ some 0xaa
      → j
        < table_size
            (be_bytes 4 code (1 + switch_pad pc + 4))
            (be_bytes 4 code (1 + switch_pad pc + 8))
      → 1 + switch_pad pc + 12 + (j * 4 + 4) ≤ length code
      → t ≡ word_target pc code (1 + switch_pad pc + 12 + j * 4)
      → LeadsTo pc code t
  lookup_default :
      get_elem? code 0 ≡ some 0xab
      → 1 + switch_pad pc + 8 ≤ length code
      → t ≡ word_target pc code (1 + switch_pad pc)
      → LeadsTo pc code t
  lookup_entry :
      (j : ℕ)
      → get_elem? code 0 ≡ some 0xab
      → j < lookup_size (be_bytes 4 code (1 + switch_pad pc + 4))
      → 1 + switch_pad pc + 8 + (j * 8 + 8) ≤ length code
      → t ≡ word_target pc code (1 + switch_pad pc + 8 + 4 + j * 8)
      → LeadsTo pc code t

contains-here : (xs : List ℕ) (x t : ℕ) → t ≡ x → contains (x ∷ xs) t ≡ true
contains-here xs x t e = ground (arith, e)

contains-later : (xs : List ℕ) (x t : ℕ) → contains xs t ≡ true → contains (x ∷ xs) t ≡ true
contains-later xs x t h = ground (arith, h)

contains-entry_targets :
    (n step pc o j t : ℕ) (code : List ℕ)
    → j < n
    → t ≡ word_target pc code (o + j * step)
    → contains (entry_targets n step pc code o) t ≡ true
unfolding entry_targets
contains-entry_targets zero step pc o j t code lt e = absurd (omega arith)
contains-entry_targets (suc n) step pc o zero t code lt e =
    let at : o + zero * step ≡ o = omega arith in
    contains-here (entry_targets n step pc code (o + step)) (word_target pc code o) t (rw at at e)
contains-entry_targets (suc n) step pc o (suc j) t code lt e =
    let at : o + suc j * step ≡ o + step + j * step = omega arith in
    contains-later (entry_targets n step pc code (o + step)) (word_target pc code o) t
      (contains-entry_targets n step pc (o + step) j t code (omega arith) (rw at at e))

-- The targets at an instruction, one lemma per kind.
contains-targets_at_short :
    (op pc t : ℕ) (code : List ℕ)
    → is_short_branch op ≡ true
    → leb 3 (length code) ≡ true
    → t ≡ code_target pc 16 (be_bytes 2 code 1)
    → contains (targets_at op pc code) t ≡ true
unfolding targets_at
contains-targets_at_short op pc t code is long e =
    rw (is, long) (contains-here [] (code_target pc 16 (be_bytes 2 code 1)) t e)

contains-targets_at_wide :
    (op pc t : ℕ) (code : List ℕ)
    → is_wide_branch op ≡ true
    → leb 5 (length code) ≡ true
    → t ≡ word_target pc code 1
    → contains (targets_at op pc code) t ≡ true
unfolding targets_at
contains-targets_at_wide op pc t code is long e =
    let other : is_short_branch op ≡ false = ground arith in
    rw (other, is, long) (contains-here [] (word_target pc code 1) t e)

module _ (op pc t : ℕ) (code : List ℕ) where
  -- How many bytes the entries of a switch take at most.
  abbrev room : ℕ → ℕ
  room header = length code - (1 + switch_pad pc + header)

  abbrev table_count : ℕ
  table_count =
      min
        (table_size (be_bytes 4 code (1 + switch_pad pc + 4))
          (be_bytes 4 code (1 + switch_pad pc + 8)))
        (room 12 / 4)

  abbrev lookup_count : ℕ
  lookup_count = min (lookup_size (be_bytes 4 code (1 + switch_pad pc + 4))) (room 8 / 8)

  table_targets :
      op ≡ 0xaa
      → leb (1 + switch_pad pc + 12) (length code) ≡ true
      → targets_at op pc code
        ≡ word_target pc code (1 + switch_pad pc)
          ∷ entry_targets table_count 4 pc code (1 + switch_pad pc + 12)
  unfolding targets_at table_entries
  table_targets same long = rw (same, long) refl

  lookup_targets :
      op ≡ 0xab
      → leb (1 + switch_pad pc + 8) (length code) ≡ true
      → targets_at op pc code
        ≡ word_target pc code (1 + switch_pad pc)
          ∷ entry_targets lookup_count 8 pc code (1 + switch_pad pc + 8 + 4)
  unfolding targets_at lookup_entries
  lookup_targets same long = rw (same, long) refl

  table_entry_in :
      (j : ℕ)
      → op ≡ 0xaa
      → j < table_count
      → t ≡ word_target pc code (1 + switch_pad pc + 12 + j * 4)
      → leb (1 + switch_pad pc + 12) (length code) ≡ true
      → contains (targets_at op pc code) t ≡ true
  table_entry_in j same below e long = rw (table_targets same long) (
      contains-later (entry_targets table_count 4 pc code (1 + switch_pad pc + 12))
        (word_target pc code (1 + switch_pad pc)) t
        (contains-entry_targets table_count 4 pc (1 + switch_pad pc + 12) j t code below e))

  lookup_entry_in :
      (j : ℕ)
      → op ≡ 0xab
      → j < lookup_count
      → t ≡ word_target pc code (1 + switch_pad pc + 8 + 4 + j * 8)
      → leb (1 + switch_pad pc + 8) (length code) ≡ true
      → contains (targets_at op pc code) t ≡ true
  lookup_entry_in j same below e long = rw (lookup_targets same long) (
      contains-later (entry_targets lookup_count 8 pc code (1 + switch_pad pc + 8 + 4))
        (word_target pc code (1 + switch_pad pc)) t
        (contains-entry_targets lookup_count 8 pc (1 + switch_pad pc + 8 + 4) j t code below e))

contains-targets_at :
    (op pc t : ℕ) (code : List ℕ)
    → LeadsTo pc (op ∷ code) t
    → contains (targets_at op pc (op ∷ code)) t ≡ true
contains-targets_at op pc t code (short op' first is long e) =
    let same : op' ≡ op = cc in
    contains-targets_at_short op pc t (op ∷ code) (rw same at is) (ground arith) e
contains-targets_at op pc t code (wide op' first is long e) =
    let same : op' ≡ op = cc in
    contains-targets_at_wide op pc t (op ∷ code) (rw same at is) (ground arith) e
contains-targets_at op pc t code (table_default first long e) =
    let same : op ≡ 0xaa = cc in
    let c = op ∷ code in
    rw (table_targets op pc t c same (le→leb _ _ long)) (
      contains-here (entry_targets (table_count op pc t c) 4 pc c (1 + switch_pad pc + 12))
        (word_target pc c (1 + switch_pad pc)) t e)
contains-targets_at op pc t code (table_entry j first below long e) =
    let same : op ≡ 0xaa = cc in
    table_entry_in op pc t (op ∷ code) j same (omega arith) e (le→leb _ _ (omega arith))
contains-targets_at op pc t code (lookup_default first long e) =
    let same : op ≡ 0xab = cc in
    let c = op ∷ code in
    rw (lookup_targets op pc t c same (le→leb _ _ long)) (
      contains-here (entry_targets (lookup_count op pc t c) 8 pc c (1 + switch_pad pc + 8 + 4))
        (word_target pc c (1 + switch_pad pc)) t e)
contains-targets_at op pc t code (lookup_entry j first below long e) =
    let same : op ≡ 0xab = cc in
    let e' : t ≡ word_target pc (op ∷ code) (1 + switch_pad pc + 8 + 4 + j * 8) = e in
    lookup_entry_in op pc t (op ∷ code) j same (omega arith) e' (le→leb _ _ (omega arith))

-- A target of an instruction that the walk meets is collected.
contains-targets_from :
    (off skip pos v t : ℕ) (code : List ℕ)
    → contains (instrs_from skip pos code) v ≡ true
    → LeadsTo (v - off) (drop (v - pos) code) t
    → contains (targets_from off skip pos code) t ≡ true
unfolding instrs_from targets_from
contains-targets_from off skip pos v t [] seen leads = absurd cc
contains-targets_from off (suc skip) pos v t (op ∷ code) seen leads =
    let e : v - pos ≡ suc (v - (pos + 1)) =
      omega (arith, instrs_from-ge skip (pos + 1) v code seen) in
    contains-targets_from off skip (pos + 1) v t code seen
      (subst (λ (k : ℕ). LeadsTo (v - off) (drop k (op ∷ code)) t) e leads)
contains-targets_from off zero pos v t (op ∷ code) seen leads =
    let skip = opcode_length op pos (op ∷ code) - 1 in
    let own = targets_at op (pos - off) (op ∷ code) in
    let rest = targets_from off skip (pos + 1) code in
    elim (Bool-cases (pos == v)) [
      | inl here ↦
          let at : v ≡ pos = ground arith in
          let at_0 : pos - pos ≡ 0 = omega arith in
          let leads' =
            subst (λ (x : ℕ). LeadsTo (x - off) (drop (x - pos) (op ∷ code)) t) at leads in
          let found =
            contains-targets_at op (pos - off) t code
              (subst (λ (k : ℕ). LeadsTo (pos - off) (drop k (op ∷ code)) t) at_0 leads') in
          ground (arith, contains-append own rest t)
      | inr other ↦
          let seen' : contains (instrs_from skip (pos + 1) code) v ≡ true = rw other at seen in
          let e : v - pos ≡ suc (v - (pos + 1)) =
            omega (arith, instrs_from-ge skip (pos + 1) v code seen') in
          let found =
            contains-targets_from off skip (pos + 1) v t code seen'
              (subst (λ (k : ℕ). LeadsTo (v - off) (drop k (op ∷ code)) t) e leads) in
          ground (arith, contains-append own rest t)
    ]

-- A region in the code at `off` that no instruction which the walk meets leads into.
abbrev pub IsUnbranched : ℕ → List ℕ → DeadBlock → Type 0
IsUnbranched off code b =
    (off ≤ b.addr)
    × (2 ≤ b.size)
    × (b.addr + b.size ≤ off + length code)
    × ((v w : ℕ)
        → contains (instrs_from 0 off code) v ≡ true
        → b.addr ≤ v
        → v < b.addr + b.size
        → contains (instrs_from 0 off code) w ≡ true
        → ¬ (LeadsTo (w - off) (drop (w - off) code) ((v - off) % 2 ^ 32)))

IsUnbranched-IsDead :
    (off : ℕ) (name : String) (code : List ℕ) (blocks : List DeadBlock)
    → All
        (IsDead
          (collect_branch_targets off code)
          off
          name
          (instrs_from 0 off code)
          off
          (off + length code))
        blocks
    → All (IsUnbranched off code) blocks
unfolding collect_branch_targets
IsUnbranched-IsDead off name code [] dead = tt
IsUnbranched-IsDead off name code (b ∷ blocks) ((low, long, high, free), dead) = (
  (
    low,
    long,
    high,
    λ v w seen from below met leads.
        let hit = contains-targets_from off 0 off w ((v - off) % 2 ^ 32) code met leads in
        let miss = free v seen from below in absurd cc,
  ),
  IsUnbranched-IsDead off name code blocks dead,
)

-- For code that lies in the file, what the scan reports of it lies in the code and has at least two
-- bytes, and of the instructions that the walk by opcode_length meets, none leads to one that it
-- meets in there: as a branch, by its offset of two or of four bytes, or as a switch, by its default
-- or an entry that the code still holds. The padding of a switch is reckoned from the start of the
-- code here, and from the start of the file in opcode_length.
pub scan_dead_in_method-IsUnbranched :
    (bytes : List ℕ) (cf : ClassFile) (code_offset code_length name_idx : ℕ)
    → code_offset + code_length ≤ length bytes
    → All
        (IsUnbranched code_offset (take code_length (drop code_offset bytes)))
        (scan_dead_in_method bytes cf code_offset code_length name_idx)
scan_dead_in_method-IsUnbranched bytes cf code_offset code_length name_idx fits =
    let code = take code_length (drop code_offset bytes) in
    let name = cp_utf8 cf.constant_pool name_idx in
    let blocks = scan_dead_in_method bytes cf code_offset code_length name_idx in
    let size : code_length ≡ length code =
      omega
        (arith, length-take code_length (drop code_offset bytes), length-drop code_offset bytes) in
    IsUnbranched-IsDead code_offset name code blocks (
      subst
        (λ (n : ℕ).
          All
            (IsDead (collect_branch_targets code_offset code) code_offset name
              (instrs_from 0 code_offset code) code_offset (code_offset + n))
            blocks)
        size (scan_dead_in_method-IsDead bytes cf code_offset code_length name_idx))

-- ===== src/Format/Java/Compact/Guards.antt =====
-- src/format/java/bytecode.rs: what `has_switch` and `has_stack_map` find.
use trim.Prelude.{
  ℕ, zero, suc, ◌+◌, ◌-◌, ◌*◌, ◌≤◌, true, false, List, [], ◌∷◌, some, ◌≡◌, ◌≢◌, arith, ◌==◌, ◌||◌,
  ◌⊎◌, inl, inr, Bool-cases, nat_eq, length, take, drop, get_elem?,
}
use trim.Prelude.Sets.{contains}
use trim.Format.Java.Classfile.{CpEntry, MethodInfo, be_bytes, is_utf8}
use trim.Format.Java.Bytecode.{opcode_length}
use trim.Format.Java.Bytecode.Dead.{instrs_from, instrs_from-ge}
use trim.Format.Java.Compact.{switch_from, has_switch, stack_map_from, has_stack_map}

-- No opcode that a walk over the code at `pos` meets is that of a switch.
abbrev pub NoSwitch : ℕ → List ℕ → Type 0
NoSwitch pos code =
    (v : ℕ)
    → contains (instrs_from 0 pos code) v ≡ true
    → (get_elem? code (v - pos) ≢ some 0xaa) × (get_elem? code (v - pos) ≢ some 0xab)

-- `p` is the place of one of the `n` attributes from `pos` on, as far as the file holds them.
abbrev pub AttributeAt : List ℕ → ℕ → ℕ → ℕ → Type 0
AttributeAt bytes p zero pos = ⊥
AttributeAt bytes p (suc n) pos =
    (pos + 6 ≤ length bytes)
    × ((p ≡ pos) ⊎ AttributeAt bytes p n (pos + (6 + be_bytes 4 bytes (pos + 2))))

-- Where the attributes behind code that ends at `end` are counted, after a handler table.
abbrev pub attributes_at : List ℕ → ℕ → ℕ
attributes_at bytes end = end + 2 + be_bytes 2 bytes end * 8

-- None of these attributes has the name of a stack map.
abbrev pub NoStackMap : List ℕ → ℕ → List CpEntry → Type 0
NoStackMap bytes end pool =
    let at = attributes_at bytes end in
    (p : ℕ)
    → at + 2 ≤ length bytes
    → AttributeAt bytes p (be_bytes 2 bytes at) (at + 2)
    → is_utf8 pool (be_bytes 2 bytes p) "StackMapTable" ≡ false

switch_from-clear :
    (skip pos v : ℕ) (code : List ℕ)
    → switch_from skip pos code ≡ false
    → contains (instrs_from skip pos code) v ≡ true
    → (get_elem? code (v - pos) ≢ some 0xaa) × (get_elem? code (v - pos) ≢ some 0xab)
unfolding switch_from instrs_from
switch_from-clear skip pos v [] free seen = absurd cc
switch_from-clear (suc skip) pos v (op ∷ code) free seen =
    let e : v - pos ≡ suc (v - (pos + 1)) =
      omega (arith, instrs_from-ge skip (pos + 1) v code seen) in
    rw e (switch_from-clear skip (pos + 1) v code free seen)
switch_from-clear zero pos v (op ∷ code) free seen =
    let skip = opcode_length op pos (op ∷ code) - 1 in
    let other : (op == 0xaa || op == 0xab) ≡ false = ground arith in
    let free' : switch_from skip (pos + 1) code ≡ false = ground arith in
    elim (Bool-cases (pos == v)) [
      | inl here ↦
          let e : v - pos ≡ 0 = ground arith in
          rw e (
            λ table. let same : op ≡ 0xaa = cc in ground arith,
            λ lookup. let same : op ≡ 0xab = cc in ground arith,
          )
      | inr later ↦
          let seen' : contains (instrs_from skip (pos + 1) code) v ≡ true = rw later at seen in
          let e : v - pos ≡ suc (v - (pos + 1)) =
            omega (arith, instrs_from-ge skip (pos + 1) v code seen') in
          rw e (switch_from-clear skip (pos + 1) v code free' seen')
    ]

pub NoSwitch-has_switch :
    (bytes : List ℕ) (code_off code_len : ℕ)
    → has_switch bytes code_off code_len ≡ false
    → NoSwitch code_off (take code_len (drop code_off bytes))
unfolding has_switch
NoSwitch-has_switch bytes code_off code_len free v seen =
    switch_from-clear 0 code_off v (take code_len (drop code_off bytes)) free seen

stack_map_from-clear :
    (n pos p : ℕ) (bytes : List ℕ) (pool : List CpEntry)
    → stack_map_from n bytes pool pos ≡ false
    → AttributeAt bytes p n pos
    → is_utf8 pool (be_bytes 2 bytes p) "StackMapTable" ≡ false
unfolding stack_map_from
stack_map_from-clear zero pos p bytes pool free at = absurd at
stack_map_from-clear (suc n) pos p bytes pool free (fits, inl here) = rw here (ground arith)
stack_map_from-clear (suc n) pos p bytes pool free (fits, inr later) =
    stack_map_from-clear n (pos + (6 + be_bytes 4 bytes (pos + 2))) p bytes pool (ground arith)
      later

pub NoStackMap-has_stack_map :
    (bytes : List ℕ) (code_off code_len : ℕ) (m : MethodInfo) (pool : List CpEntry) (ca_off : ℕ)
    → m.code_attr_offset ≡ some ca_off
    → has_stack_map bytes code_off code_len m pool ≡ false
    → NoStackMap bytes (code_off + code_len) pool
unfolding has_stack_map
NoStackMap-has_stack_map bytes code_off code_len m pool ca_off attr free p fits at =
    let place = attributes_at bytes (code_off + code_len) in
    let found : stack_map_from (be_bytes 2 bytes place) bytes pool (place + 2) ≡ false =
      ground arith in
    stack_map_from-clear (be_bytes 2 bytes place) (place + 2) p bytes pool found at

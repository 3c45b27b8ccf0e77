-- ===== src/Format/Java/Methods/Used.antt =====
-- src/format/java/mod.rs: which methods a class uses: the walks that `bfs_live` takes.
use trim.Prelude.{
  ℕ, zero, suc, ◌+◌, ◌-◌, ◌/◌, ◌%◌, ◌≤◌, true, false, List, [], ◌∷◌, some, ◌≡◌, ◌⊎◌, refl, sym, ap,
  ◌∙◌, subst, arith, ltb, leb, ◌==◌, ◌&&◌, str_eq_iff, string_eq, nat_eq, length, take, drop,
  get_elem?, Bool-cases, Option-cases, inl, inr,
}
use trim.Prelude.Sets.{contains, contains-append}
use trim.Prelude.Worklist.Correct.{root, step}
use trim.Prelude.Worklist.Graph.{neighbours}
use trim.Format.Java.Classfile.{MethodInfo, ClassFile, be_bytes}
use trim.Format.Java.Bytecode.{
  opcode_length, resolve_method_idx, callee_at, calls_from, scan_bytecode_calls,
}
use trim.Format.Java.Bytecode.Dead.{instrs_from, instrs_from-ge}
use trim.Format.Java.Methods.{is_root, indices, call_graph}
use trim.Format.Java.Methods.Removed.{Live, name_of, contains-indices}

-- A method that is used from outside: by its name, or because it is public or protected.
abbrev pub IsOutside : ClassFile → MethodInfo → Type 0
IsOutside cf m =
    (name_of cf m ≡ "main")
    ⊎ (name_of cf m ≡ "<init>")
    ⊎ (name_of cf m ≡ "<clinit>")
    ⊎ (m.access_flags % 2 ≡ 1)
    ⊎ (m.access_flags / 4 % 2 ≡ 1)

-- The instruction that `code` starts with is invokevirtual, invokespecial, invokestatic or
-- invokeinterface, and its two bytes name the method `j` of the class.
abbrev pub CallsHere : ClassFile → List ℕ → ℕ → Type 0
CallsHere cf code j =
    (op : ℕ) × (get_elem? code 0 ≡ some op)
    × (0xb6 ≤ op)
    × (op ≤ 0xb9)
    × (3 ≤ length code)
    × (resolve_method_idx cf (be_bytes 2 code 1) ≡ some j)

-- One of the instructions that a walk over the code at `off` meets calls the method `j`.
abbrev pub Calls : ClassFile → ℕ → List ℕ → ℕ → Type 0
Calls cf off code j =
    (v : ℕ) × (contains (instrs_from 0 off code) v ≡ true) × CallsHere cf (drop (v - off) code) j

-- A method that is used from outside, or that the code of a used method calls.
pub data Used (bytes : List ℕ) (cf : ClassFile) : ℕ → Type 0 where
  outside :
      {i : ℕ} (m : MethodInfo) → get_elem? cf.methods i ≡ some m → IsOutside cf m → Used bytes cf i
  called :
      {i j : ℕ} (m : MethodInfo) (off : ℕ)
      → Used bytes cf i
      → get_elem? cf.methods i ≡ some m
      → m.code_offset ≡ some off
      → off + m.code_length ≤ length bytes
      → Calls cf off (take m.code_length (drop off bytes)) j
      → Used bytes cf j

IsOutside-is_root :
    (cf : ClassFile) (m : MethodInfo) → IsOutside cf m → is_root cf.constant_pool m ≡ true
IsOutside-is_root cf m (inl e) = let h = (str_eq_iff (name_of cf m) "main").1 e in ground (arith, h)
IsOutside-is_root cf m (inr (inl e)) =
    let h = (str_eq_iff (name_of cf m) "<init>").1 e in ground (arith, h)
IsOutside-is_root cf m (inr (inr (inl e))) =
    let h = (str_eq_iff (name_of cf m) "<clinit>").1 e in ground (arith, h)
IsOutside-is_root cf m (inr (inr (inr (inl e)))) = ground (arith, e)
IsOutside-is_root cf m (inr (inr (inr (inr e)))) = ground (arith, e)

CallsHere-callee_at :
    (cf : ClassFile) (op : ℕ) (code : List ℕ) (j : ℕ)
    → CallsHere cf (op ∷ code) j
    → contains (callee_at cf op (op ∷ code)) j ≡ true
CallsHere-callee_at cf op code j (op', first, low, high, long, found) =
    let same : op' ≡ op = cc in
    let call : (leb 0xb6 op && leb op 0xb9) ≡ true = ground arith in
    let fits : leb 3 (length (op ∷ code)) ≡ true = ground arith in
    rw (call, fits, found) (ground arith)

-- A call of an instruction that the walk meets is collected.
contains-calls_from :
    (cf : ClassFile) (skip pos v j : ℕ) (code : List ℕ)
    → contains (instrs_from skip pos code) v ≡ true
    → CallsHere cf (drop (v - pos) code) j
    → contains (calls_from cf skip pos code) j ≡ true
unfolding instrs_from calls_from
contains-calls_from cf skip pos v j [] seen here = absurd cc
contains-calls_from cf (suc skip) pos v j (op ∷ code) seen here =
    let e : v - pos ≡ suc (v - (pos + 1)) =
      omega (arith, instrs_from-ge skip (pos + 1) v code seen) in
    contains-calls_from cf skip (pos + 1) v j code seen
      (subst (λ (k : ℕ). CallsHere cf (drop k (op ∷ code)) j) e here)
contains-calls_from cf zero pos v j (op ∷ code) seen here =
    let skip = opcode_length op pos (op ∷ code) - 1 in
    let own = callee_at cf op (op ∷ code) in
    let rest = calls_from cf skip (pos + 1) code in
    elim (Bool-cases (pos == v)) [
      | inl at ↦
          let e : v - pos ≡ 0 = ground arith in
          let found =
            CallsHere-callee_at cf op code j
              (subst (λ (k : ℕ). CallsHere cf (drop k (op ∷ code)) j) e here) in
          ground (arith, contains-append own rest j)
      | inr other ↦
          let seen' : contains (instrs_from skip (pos + 1) code) v ≡ true = rw other at seen in
          let e : v - pos ≡ suc (v - (pos + 1)) =
            omega (arith, instrs_from-ge skip (pos + 1) v code seen') in
          let found =
            contains-calls_from cf skip (pos + 1) v j code seen'
              (subst (λ (k : ℕ). CallsHere cf (drop k (op ∷ code)) j) e here) in
          ground (arith, contains-append own rest j)
    ]

module _ (bytes : List ℕ) (cf : ClassFile) where
  contains-scan_bytecode_calls :
      (off len j : ℕ)
      → off + len ≤ length bytes
      → Calls cf off (take len (drop off bytes)) j
      → contains (scan_bytecode_calls bytes cf off len) j ≡ true
  unfolding scan_bytecode_calls
  contains-scan_bytecode_calls off len j fits (v, seen, here) =
      let inside : ltb (length bytes) (off + len) ≡ false = ground arith in
      rw inside (contains-calls_from cf 0 off v j (take len (drop off bytes)) seen here)

  -- The calls of a method in the graph.
  neighbours-call_graph :
      (ms : List MethodInfo) (idx k off : ℕ) (m : MethodInfo)
      → get_elem? ms k ≡ some m
      → m.code_offset ≡ some off
      → neighbours (call_graph bytes cf ms idx) (idx + k)
        ≡ scan_bytecode_calls bytes cf off m.code_length
  unfolding neighbours call_graph
  neighbours-call_graph [] idx k off m at code = absurd cc
  neighbours-call_graph (x ∷ ms) idx zero off m at code =
      let same : m ≡ x = cc in
      let code' : x.code_offset ≡ some off = rw same at code in
      let here : (idx == idx + 0) ≡ true = ground arith in
      rw same (rw (call_graph, code') (rw (neighbours, here) refl))
  neighbours-call_graph (x ∷ ms) idx (suc k) off m at code =
      let e : idx + suc k ≡ idx + 1 + k = omega arith in
      let other : (idx == idx + suc k) ≡ false = ground arith in
      let rest = neighbours-call_graph ms (idx + 1) k off m at code in
      elim (Option-cases x.code_offset) [
        | inl nothing ↦ rw (call_graph, nothing) (rw e rest)
        | inr (co, found) ↦ rw (call_graph, found) (rw (neighbours, other) (rw e rest))
      ]

  pub Used-Live : {i : ℕ} → Used bytes cf i → Live bytes cf i
  Used-Live (outside {i} m at is) =
      let e : 0 + i ≡ i = omega arith in
      root (
        ap (contains (indices (is_root cf.constant_pool) cf.methods 0)) (sym e)
        ∙ contains-indices (is_root cf.constant_pool) cf.methods 0 i m at
        ∙ IsOutside-is_root cf m is)
  Used-Live (called {i} {j} m off used at code fits calls) =
      let e : 0 + i ≡ i = omega arith in
      let calls' = contains-scan_bytecode_calls off m.code_length j fits calls in
      let edge = neighbours-call_graph cf.methods 0 i off m at code in
      step (Used-Live used) (
        ap (λ (x : ℕ). contains (neighbours (call_graph bytes cf cf.methods 0) x) j) (sym e)
        ∙ ap (λ (xs : List ℕ). contains xs j) edge
        ∙ calls')

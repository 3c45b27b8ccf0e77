-- ===== src/Format/Java/Methods/Unused.antt =====
-- src/format/java/mod.rs: the methods that are left out are those with the name of an unused one.
use mathlib.Core.Logic.{∥∥₁_elim}
use trim.Prelude.{
  ℕ, zero, suc, ◌+◌, ◌-◌, ◌%◌, ◌≤◌, Bool, true, List, [], ◌∷◌, some, ◌≡◌, ◌≢◌, ◌↔◌, refl, subst,
  arith, ltb, leb, ◌==◌, ◌&&◌, str_eq, str_eq_iff, string_eq, nat_eq, length, take, drop, get_elem?,
  Bool-cases, Option-cases, inl, inr,
}
use trim.Prelude.Sets.{contains, contains-append}
use trim.Prelude.Worklist.Correct.{root, step}
use trim.Prelude.Worklist.Graph.{neighbours}
use trim.Format.Ranges.{DeadMap}
use trim.Format.Java.Classfile.{MethodInfo, ClassFile, be_bytes}
use trim.Format.Java.Bytecode.{
  opcode_length, resolve_method_idx, callee_at, calls_from, scan_bytecode_calls,
}
use trim.Format.Java.Bytecode.Dead.{instrs_from, instrs_from-ge}
use trim.Format.Java.Methods.{is_root, indices, call_graph, find_dead_methods, dead_indices}
use trim.Format.Java.Methods.Removed.{Live, name_of, dead_indices-find_dead_methods}
use trim.Format.Java.Methods.Used.{IsOutside, CallsHere, Calls, Used, outside, called, Used-Live}

is_root-IsOutside :
    (cf : ClassFile) (m : MethodInfo) → is_root cf.constant_pool m ≡ true → IsOutside cf m
is_root-IsOutside cf m h = elim (Bool-cases (str_eq (name_of cf m) "main")) [
  | inl e ↦ inl ((str_eq_iff (name_of cf m) "main").0 e)
  | inr n1 ↦ elim (Bool-cases (str_eq (name_of cf m) "<init>")) [
    | inl e ↦ inr (inl ((str_eq_iff (name_of cf m) "<init>").0 e))
    | inr n2 ↦ elim (Bool-cases (str_eq (name_of cf m) "<clinit>")) [
      | inl e ↦ inr (inr (inl ((str_eq_iff (name_of cf m) "<clinit>").0 e)))
      | inr n3 ↦ elim (Bool-cases (m.access_flags % 2 == 1)) [
        | inl e ↦ inr (inr (inr (inl (ground arith))))
        | inr n4 ↦ inr (inr (inr (inr (ground arith))))
      ]
    ]
  ]
]

callee_at-CallsHere :
    (cf : ClassFile) (op : ℕ) (code : List ℕ) (j : ℕ)
    → contains (callee_at cf op (op ∷ code)) j ≡ true
    → CallsHere cf (op ∷ code) j
callee_at-CallsHere cf op code j h =
    elim (Bool-cases ((leb 0xb6 op && leb op 0xb9) && leb 3 (length (op ∷ code)))) [
      | inr other ↦ absurd (cc (rw other at h))
      | inl call ↦ elim (Option-cases (resolve_method_idx cf (be_bytes 2 (op ∷ code) 1))) [
        | inl nothing ↦ absurd (cc (rw (call, nothing) at h))
        | inr (i, found) ↦
            let h' : contains (i ∷ []) j ≡ true = rw (call, found) at h in
            let same : i ≡ j = ground arith in
            (op, refl, ground arith, ground arith, ground arith, rw same at found)
      ]
    ]

calls_from-Calls :
    (cf : ClassFile) (skip pos j : ℕ) (code : List ℕ)
    → contains (calls_from cf skip pos code) j ≡ true
    → (v : ℕ) × (contains (instrs_from skip pos code) v ≡ true)
      × CallsHere cf (drop (v - pos) code) j
unfolding instrs_from calls_from
calls_from-Calls cf skip pos j [] h = absurd cc
calls_from-Calls cf (suc skip) pos j (op ∷ code) h =
    let (v, seen, here) = calls_from-Calls cf skip (pos + 1) j code h in
    let e : suc (v - (pos + 1)) ≡ v - pos =
      omega (arith, instrs_from-ge skip (pos + 1) v code seen) in
    (v, seen, subst (λ (k : ℕ). CallsHere cf (drop k (op ∷ code)) j) e here)
calls_from-Calls cf zero pos j (op ∷ code) h =
    let skip = opcode_length op pos (op ∷ code) - 1 in
    let own = callee_at cf op (op ∷ code) in
    let rest = calls_from cf skip (pos + 1) code in
    elim (Bool-cases (contains own j)) [
      | inl mine ↦
          let e : 0 ≡ pos - pos = omega arith in
          (
            pos,
            ground arith,
            subst (λ (k : ℕ). CallsHere cf (drop k (op ∷ code)) j) e
                (callee_at-CallsHere cf op code j mine),
          )
      | inr other ↦
          let later : contains rest j ≡ true = ground (arith, contains-append own rest j) in
          let (v, seen, here) = calls_from-Calls cf skip (pos + 1) j code later in
          let e : suc (v - (pos + 1)) ≡ v - pos =
            omega (arith, instrs_from-ge skip (pos + 1) v code seen) in
          (v, ground arith, subst (λ (k : ℕ). CallsHere cf (drop k (op ∷ code)) j) e here)
    ]

indices-found :
    (p : MethodInfo → Bool) (ms : List MethodInfo) (idx i : ℕ)
    → contains (indices p ms idx) i ≡ true
    → (k : ℕ) × (m : MethodInfo) × (i ≡ idx + k) × (get_elem? ms k ≡ some m) × (p m ≡ true)
unfolding indices
indices-found p [] idx i h = absurd cc
indices-found p (x ∷ ms) idx i h = elim (Bool-cases (p x && idx == i)) [
  | inl here ↦ (0, x, ground arith, refl, ground arith)
  | inr other ↦
      let later : contains (indices p ms (idx + 1)) i ≡ true = ground arith in
      let (k, m, e, at, is) = indices-found p ms (idx + 1) i later in
      (suc k, m, omega arith, at, is)
]

module _ (bytes : List ℕ) (cf : ClassFile) where
  -- A call in the graph is that of a method's code.
  graph_call :
      (ms : List MethodInfo) (idx i j : ℕ)
      → contains (neighbours (call_graph bytes cf ms idx) i) j ≡ true
      → (k : ℕ) × (m : MethodInfo) × (off : ℕ) × (i ≡ idx + k)
        × (get_elem? ms k ≡ some m)
        × (m.code_offset ≡ some off)
        × (contains (scan_bytecode_calls bytes cf off m.code_length) j ≡ true)
  unfolding neighbours call_graph
  graph_call [] idx i j h = absurd cc
  graph_call (x ∷ ms) idx i j h = elim (Option-cases x.code_offset) [
    | inl nothing ↦
        let (k, m, off, e, at, code, calls) =
          graph_call ms (idx + 1) i j (rw (call_graph, nothing) at h) in
        (suc k, m, off, omega arith, at, code, calls)
    | inr (co, found) ↦
        let h' = rw (call_graph, found) at h in
        elim (Bool-cases (idx == i)) [
          | inl here ↦ (0, x, co, ground arith, refl, found, rw (neighbours, here) at h')
          | inr other ↦
              let (k, m, off, e, at, code, calls) =
                graph_call ms (idx + 1) i j (rw (neighbours, other) at h') in
              (suc k, m, off, omega arith, at, code, calls)
        ]
  ]

  scan_bytecode_calls-Calls :
      (off len j : ℕ)
      → contains (scan_bytecode_calls bytes cf off len) j ≡ true
      → (off + len ≤ length bytes) × Calls cf off (take len (drop off bytes)) j
  unfolding scan_bytecode_calls
  scan_bytecode_calls-Calls off len j h = elim (Bool-cases (ltb (length bytes) (off + len))) [
    | inl past ↦ absurd (cc (rw (scan_bytecode_calls, past) at h))
    | inr fits ↦ (
      ground arith,
      calls_from-Calls cf 0 off j (take len (drop off bytes)) (rw (scan_bytecode_calls, fits) at h),
    )
  ]

  Live-Used : {i : ℕ} → Live bytes cf i → Used bytes cf i
  Live-Used (root {v} h) =
      let (k, m, e, at, is) = indices-found (is_root cf.constant_pool) cf.methods 0 v h in
      let e' : k ≡ v = omega arith in outside m (rw e' at at) (is_root-IsOutside cf m is)
  Live-Used (step {u} {v} reached edge) =
      let (k, m, off, e, at, code, calls) = graph_call cf.methods 0 u v edge in
      let e' : k ≡ u = omega arith in
      let (fits, calls') = scan_bytecode_calls-Calls off m.code_length v calls in
      called m off (Live-Used reached) (rw e' at at) code fits calls'

-- A method of the name of `m`, which is not empty, that is not used.
abbrev pub UnusedNamesake : List ℕ → ClassFile → MethodInfo → Type 0
UnusedNamesake bytes cf m =
    (j : ℕ) × (m' : MethodInfo) × (get_elem? cf.methods j ≡ some m')
    × ¬ Used bytes cf j
    × (name_of cf m' ≢ "")
    × (name_of cf m' ≡ name_of cf m)

-- The search for dead methods ends. With the methods that it finds, `dead_indices`, the methods to
-- leave out, are exactly those for which some method of the same name, which is not empty, is not
-- used: the method itself, or another one of that name. A method is used if it has the name main,
-- <init> or <clinit>, is public or protected, or is called by an instruction of the class that
-- belongs to a used method; calls are invokevirtual, invokespecial, invokestatic and
-- invokeinterface, as resolve_method_idx resolves them, at the places that the walk over the
-- method's code meets.
pub dead_indices-Used :
    (bytes : List ℕ) (cf : ClassFile)
    → (dead : DeadMap) × (find_dead_methods bytes cf ≡ some dead)
      × ((i : ℕ) (m : MethodInfo)
          → get_elem? cf.methods i ≡ some m
          → (contains (dead_indices cf dead) i ≡ true) ↔ ∥ UnusedNamesake bytes cf m ∥₁)
dead_indices-Used bytes cf =
    let (dead, ends, exact) = dead_indices-find_dead_methods bytes cf in
    (
      dead,
      ends,
      λ i m at. (
        λ h. ∥∥₁_elim ((exact i m at).0 h) (hlevel) (λ found.
            let (j, m', at', dead', named, same) = found in
            ∣ (j, m', at', λ used. dead' (Used-Live bytes cf used), named, same) ∣₁),
        λ namesake. (exact i m at).1 (
            ∥∥₁_elim namesake (hlevel) (λ found.
              let (j, m', at', unused, named, same) = found in
              ∣ (j, m', at', λ live. unused (Live-Used bytes cf live), named, same) ∣₁)),
      ),
    )

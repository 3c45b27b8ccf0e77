-- ===== src/Format/Wasm/Graph/Named.antt =====
-- src/format/wasm/mod.rs: the functions that a module names from outside of its code, and that none of
-- them is reported as dead.
use trim.Prelude.{
  ℕ, zero, suc, true, List, [], ◌∷◌, ◌++◌, map, Option, none, some, ◌≡◌, ap, arith, ◌⊎◌, inl, inr,
  String, nat_eq, get_elem?, Option-cases,
}
use trim.Prelude.Sets.{contains, contains-append}
use trim.Prelude.Worklist.Correct.{Reach, root, step}
use trim.Prelude.Worklist.Graph.{neighbours}
use trim.Format.Ranges.{DeadMap}
use trim.Format.Wasm.Scan.{WasmFunc}
use trim.Format.Wasm.Graph.{
  Payload, imports, exports, start, elements, code_entry, broken, other, WasmModule, Parsed,
  exported, all_some, parse_elements, parse_payload, parse_payloads, parse_module,
  find_dead_functions,
}
use trim.Format.Wasm.Graph.Dead.{offsets, find_dead_functions-unreached}

-- A payload names the function `i`: an export of a function, the start function, or an element that
-- is listed as a function. An element that is an expression is not listed.
abbrev pub NamedBy : Payload → ℕ → Type 0
NamedBy (imports items) i = ⊥
NamedBy (exports items) i =
    (k : ℕ) × (name : String) × (get_elem? items k ≡ some (some (some (i, name))))
NamedBy (start func) i = func ≡ i
NamedBy (elements elems) i =
    (k : ℕ) × (items : List (Option ℕ)) × (get_elem? elems k ≡ some (some items))
    × ((j : ℕ) × (get_elem? items j ≡ some (some i)))
NamedBy (code_entry range_start range_end operators) i = ⊥
NamedBy broken i = ⊥
NamedBy other i = ⊥

-- One of the payloads names it.
abbrev pub Named : List Payload → ℕ → Type 0
Named [] i = ⊥
Named (p ∷ payloads) i = NamedBy p i ⊎ Named payloads i

-- A named function, or one that a function of these calls.
pub data Used (payloads : List Payload) (m : WasmModule) : ℕ → Type 0 where
  named : {i : ℕ} → Named payloads i → Used payloads m i
  called :
      {i j : ℕ}
      → Used payloads m i
      → contains (neighbours m.call_graph i) j ≡ true
      → Used payloads m j

contains-exported :
    (items : List (Option (Option (ℕ × String)))) (k i : ℕ) (name : String)
    → get_elem? items k ≡ some (some (some (i, name)))
    → contains (map (λ (e : ℕ × String). e.0) (exported items)) i ≡ true
contains-exported [] k i name at = absurd cc
contains-exported (none ∷ items) zero i name at = absurd cc
contains-exported (some none ∷ items) zero i name at = absurd cc
contains-exported (some (some e) ∷ items) zero i name at =
    let e' : e ≡ (i, name) = cc in
    let same : e.0 ≡ i = ap (λ (x : ℕ × String). x.0) e' in ground arith
contains-exported (none ∷ items) (suc k) i name at = contains-exported items k i name at
contains-exported (some none ∷ items) (suc k) i name at = contains-exported items k i name at
contains-exported (some (some e) ∷ items) (suc k) i name at =
    let rest = contains-exported items k i name at in ground (arith, rest)

contains-all_some :
    (items : List (Option ℕ)) (j i : ℕ)
    → get_elem? items j ≡ some (some i)
    → contains (all_some items) i ≡ true
contains-all_some [] j i at = absurd cc
contains-all_some (none ∷ items) zero i at = absurd cc
contains-all_some (some x ∷ items) zero i at = let same : x ≡ i = cc in ground arith
contains-all_some (none ∷ items) (suc j) i at = contains-all_some items j i at
contains-all_some (some x ∷ items) (suc j) i at =
    let rest = contains-all_some items j i at in ground (arith, rest)

contains-parse_elements :
    (elems : List (Option (List (Option ℕ)))) (k j i : ℕ) (items : List (Option ℕ))
    → get_elem? elems k ≡ some (some items)
    → get_elem? items j ≡ some (some i)
    → contains (parse_elements elems) i ≡ true
unfolding parse_elements
contains-parse_elements [] k j i items at at' = absurd cc
contains-parse_elements (none ∷ elems) zero j i items at at' = absurd cc
contains-parse_elements (none ∷ elems) (suc k) j i items at at' =
    contains-parse_elements elems k j i items at at'
contains-parse_elements (some items' ∷ elems) zero j i items at at' =
    let same : items' ≡ items = cc in
    let here = contains-all_some items j i at' in
    let split = contains-append (all_some items) (parse_elements elems) i in rw same (ground arith)
contains-parse_elements (some items' ∷ elems) (suc k) j i items at at' =
    let later = contains-parse_elements elems k j i items at at' in
    let split = contains-append (all_some items') (parse_elements elems) i in ground arith

abbrev module_roots : Option WasmModule → List ℕ
module_roots none = []
module_roots (some m) = m.roots

abbrev roots_of : Option Parsed → List ℕ
roots_of none = []
roots_of (some p) = p.result.roots

kept_or_added :
    (old added new : List ℕ) (i : ℕ)
    → old ++ added ≡ new
    → (contains old i ≡ true) ⊎ (contains added i ≡ true)
    → contains new i ≡ true
kept_or_added old added new i e h =
    let split = contains-append old added i in
    let there : contains (old ++ added) i ≡ true = elim h [
      | inl here ↦ ground arith
      | inr later ↦ ground arith
    ] in
    rw e at there

module _ (format_name : ℕ → String) where
  -- A round keeps the roots and adds what its payload names.
  parse_payload-roots :
      (payload : Payload) (p p' : Parsed) (i : ℕ)
      → parse_payload format_name payload p ≡ some p'
      → (contains p.result.roots i ≡ true) ⊎ NamedBy payload i
      → contains p'.result.roots i ≡ true
  unfolding parse_payload
  parse_payload-roots (imports items) p p' i e h =
      let same : p.result.roots ≡ p'.result.roots = ap roots_of e in
      elim h [ inl old ↦ rw same at old | inr nowhere ↦ absurd nowhere ]
  parse_payload-roots (exports items) p p' i e h =
      let added = map (λ (e : ℕ × String). e.0) (exported items) in
      let same : p.result.roots ++ added ≡ p'.result.roots = ap roots_of e in
      kept_or_added p.result.roots added p'.result.roots i same (elim h [
        | inl old ↦ inl old
        | inr (k, name, at) ↦ inr (contains-exported items k i name at)
      ])
  parse_payload-roots (start func) p p' i e h =
      let same : p.result.roots ++ func ∷ [] ≡ p'.result.roots = ap roots_of e in
      kept_or_added p.result.roots (func ∷ []) p'.result.roots i same
        (elim h [ inl old ↦ inl old | inr is ↦ inr (ground arith) ])
  parse_payload-roots (elements elems) p p' i e h =
      let added = parse_elements elems in
      let same : p.result.roots ++ added ≡ p'.result.roots = ap roots_of e in
      kept_or_added p.result.roots added p'.result.roots i same (elim h [
        | inl old ↦ inl old
        | inr (k, items, at, found) ↦
            inr (contains-parse_elements elems k found.0 i items at found.1)
      ])
  parse_payload-roots (code_entry range_start range_end operators) p p' i e h =
      let same : p.result.roots ≡ p'.result.roots = ap roots_of e in
      elim h [ inl old ↦ rw same at old | inr nowhere ↦ absurd nowhere ]
  parse_payload-roots broken p p' i e h = absurd cc
  parse_payload-roots other p p' i e h =
      let same : p.result.roots ≡ p'.result.roots = ap roots_of e in
      elim h [ inl old ↦ rw same at old | inr nowhere ↦ absurd nowhere ]

  parse_payloads-roots :
      (payloads : List Payload) (p p' : Parsed) (i : ℕ)
      → parse_payloads format_name payloads p ≡ some p'
      → (contains p.result.roots i ≡ true) ⊎ Named payloads i
      → contains p'.result.roots i ≡ true
  unfolding parse_payloads
  parse_payloads-roots [] p p' i e (inl old) = let same : p ≡ p' = cc in rw same at old
  parse_payloads-roots [] p p' i e (inr none_named) = absurd none_named
  parse_payloads-roots (payload ∷ payloads) p p' i e h =
      elim (Option-cases (parse_payload format_name payload p)) [
        | inl refused ↦ absurd (cc (rw (parse_payloads, refused) at e))
        | inr (next, round) ↦
            let e' : parse_payloads format_name payloads next ≡ some p' =
              rw (parse_payloads, round) at e in
            elim h [
              | inl old ↦
                  parse_payloads-roots payloads next p' i e'
                    (inl (parse_payload-roots payload p next i round (inl old)))
              | inr (inl here) ↦
                  parse_payloads-roots payloads next p' i e'
                    (inl (parse_payload-roots payload p next i round (inr here)))
              | inr (inr later) ↦ parse_payloads-roots payloads next p' i e' (inr later)
            ]
      ]

  parse_module-roots :
      (payloads : List Payload) (m : WasmModule) (i : ℕ)
      → parse_module format_name payloads ≡ some m
      → Named payloads i
      → contains m.roots i ≡ true
  unfolding parse_module
  parse_module-roots payloads m i e h =
      let first : Parsed = record {
        num_imports = 0;
        code_idx = 0;
        func_names = [];
        result = record { functions = []; roots = []; call_graph = [] };
      } in
      elim (Option-cases (parse_payloads format_name payloads first)) [
        | inl refused ↦ absurd (cc (rw (parse_module, refused) at e))
        | inr (p, parsed) ↦
            let roots : p.result.roots ≡ m.roots =
              ap module_roots (rw (parse_module, parsed) at e) in
            let found = parse_payloads-roots payloads first p i parsed (inr h) in rw roots at found
      ]

  Used-Reach :
      (payloads : List Payload) (m : WasmModule)
      → parse_module format_name payloads ≡ some m
      → {i : ℕ} → Used payloads m i
      → Reach (neighbours m.call_graph) m.roots i
  Used-Reach payloads m e (named {i} h) = root (parse_module-roots payloads m i e h)
  Used-Reach payloads m e (called used edge) = step (Used-Reach payloads m e used) edge

  -- For a module that is parsed, the search for dead functions ends, and each place that it gives is
  -- where the body of a function starts that is not named by an export, as the start function or by
  -- an element that is listed as a function, and that no chain of the calls in the call graph leads
  -- to from one that is.
  pub find_dead_functions-Used :
      (payloads : List Payload) (m : WasmModule)
      → parse_module format_name payloads ≡ some m
      → (dead : DeadMap) × (find_dead_functions m ≡ some dead)
        × ((off : ℕ)
            → contains (offsets dead) off ≡ true
            → (k : ℕ) × (f : WasmFunc) × (get_elem? m.functions k ≡ some f)
              × (f.body_offset ≡ off)
              × ¬ Used payloads m f.index)
  find_dead_functions-Used payloads m e =
      let (dead, ends, unreached) = find_dead_functions-unreached m in
      (
        dead,
        ends,
        λ off h.
            let (k, f, at, starts, free) = unreached off h in
            (k, f, at, starts, λ used. free (Used-Reach payloads m e used)),
      )

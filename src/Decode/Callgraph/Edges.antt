-- ===== src/Decode/Callgraph/Edges.antt =====
-- src/decode/callgraph.rs: which edges and which orphans the two builders make.
use trim.Prelude.{
  ℕ, Bool, true, false, not, List, [], ◌∷◌, Option, none, some, String, ◌≡◌, refl, sym, ◌∙◌, ap,
  ap₂, arith, ◌&&◌, ◌||◌, any, str_eq, str_eq_iff, string_eq, Bool-cases, inl, inr,
}
use trim.Prelude.Sets.{contains}
use trim.Types.{FuncMap, RefGraph, DecodedInstr}
use trim.Prelude.Worklist.Graph.{neighbours}
use trim.Analysis.Reachability.{callees}
use trim.Analysis.Reachability.Aliases.{contains-insert_name}
use trim.Decode.Callgraph.{
  Refs, add_ref, add_target, add_call_targets, add_instrs, empty_graph, build_ref_graph,
  build_ref_graph_fast, resolve_addr, resolve_addr_fast, build_addr_index, AddrIndex,
}

-- A resolved address is the given name.
abbrev pub is_name : Option String → String → Bool
is_name none name = false
is_name (some n) name = str_eq n name

abbrev pub is_none {ℓ} : {A : Type ℓ} → Option A → Bool
is_none none = true
is_none (some x) = false

abbrev pub has_ref : RefGraph → String → String → Bool
has_ref graph src tgt = contains (callees graph src) tgt

str_eq-agree : (a b s t : String) → str_eq a s ≡ true → str_eq b t ≡ true → str_eq s t ≡ str_eq a b
str_eq-agree a b s t h k =
    ap₂ (λ (x y : String). str_eq x y) (sym ((str_eq_iff a s).0 h)) (sym ((str_eq_iff b t).0 k))

not_at : (a s k : String) → k ≡ s → str_eq k a ≡ false → str_eq a s ≡ false
not_at a s k e h = elim (Bool-cases (str_eq a s)) [
  | inl same ↦ ground (arith, (str_eq_iff k a).1 (e ∙ sym ((str_eq_iff a s).0 same)))
  | inr other ↦ other
]

has_ref-add_ref :
    (graph : RefGraph) (a b s t : String)
    → has_ref (add_ref graph a b) s t ≡ (has_ref graph s t || (str_eq a s && str_eq b t))
unfolding add_ref neighbours
has_ref-add_ref [] a b s t = ground arith
has_ref-add_ref ((k, cs) ∷ graph) a b s t = elim (Bool-cases (str_eq k a)) [
  | inl at_a ↦
      let e : k ≡ a = (str_eq_iff k a).0 at_a in
      let same : str_eq k s ≡ str_eq a s = ap (λ (n : String). str_eq n s) e in
      ground (arith, contains-insert_name cs b t)
  | inr not_a ↦
      let rest = has_ref-add_ref graph a b s t in
      let apart = not_at a s k in
      elim (Bool-cases (str_eq k s)) [
        | inl at_s ↦ let off = not_at a s k ((str_eq_iff k s).0 at_s) not_a in ground arith
        | inr not_s ↦ ground arith
      ]
]

-- What a target adds to the edges and to the orphans.
add_target_lem :
    (refs : Refs) (src tgt : Option String) (s t : String)
    → (has_ref (add_target refs src tgt).0 s t
        ≡ (has_ref refs.0 s t || (is_name src s && (is_name tgt t && not (str_eq s t)))))
      × (contains (add_target refs src tgt).1 t
          ≡ (contains refs.1 t || (is_none src && is_name tgt t)))
unfolding add_target
add_target_lem (graph, orphans) none none s t = (ground arith, ground arith)
add_target_lem (graph, orphans) (some a) none s t = (ground arith, ground arith)
add_target_lem (graph, orphans) none (some b) s t = (ground arith, contains-insert_name orphans b t)
add_target_lem (graph, orphans) (some a) (some b) s t = elim (Bool-cases (str_eq a b)) [
  | inl same ↦ rw same (ground (arith, str_eq-agree a b s t), ground arith)
  | inr other ↦
      rw other (has_ref-add_ref graph a b s t ∙ ground (arith, str_eq-agree a b s t), ground arith)
]

module _ (resolve : ℕ → Option String) (s t : String) where
  -- An instruction of the function `s` that refers to an address of another function `t`.
  abbrev pub refers : DecodedInstr → Bool
  refers i =
      is_name (resolve i.addr) s && (any (λ a. is_name (resolve a) t) i.targets && not (str_eq s t))

  -- An instruction of no function that refers to an address of the function `t`.
  abbrev pub refers_from_outside : DecodedInstr → Bool
  refers_from_outside i = is_none (resolve i.addr) && any (λ a. is_name (resolve a) t) i.targets

  add_call_targets_lem :
      (src : Option String) (targets : List ℕ) (refs : Refs)
      → (has_ref (add_call_targets resolve src targets refs).0 s t ≡ (
          has_ref refs.0 s t
          || (is_name src s && (any (λ a. is_name (resolve a) t) targets && not (str_eq s t)))))
        × (contains (add_call_targets resolve src targets refs).1 t
            ≡ (contains refs.1 t || (is_none src && any (λ a. is_name (resolve a) t) targets)))
  unfolding add_call_targets
  add_call_targets_lem src [] refs = (ground arith, ground arith)
  add_call_targets_lem src (a ∷ targets) refs =
      let (edges, orphans) = add_target_lem refs src (resolve a) s t in
      let (edges', orphans') = add_call_targets_lem src targets (add_target refs src (resolve a)) in
      (edges' ∙ rw edges (ground arith), orphans' ∙ rw orphans (ground arith))

  add_instrs_lem :
      (instrs : List DecodedInstr) (refs : Refs)
      → (has_ref (add_instrs resolve instrs refs).0 s t ≡ (has_ref refs.0 s t || any refers instrs))
        × (contains (add_instrs resolve instrs refs).1 t
            ≡ (contains refs.1 t || any refers_from_outside instrs))
  unfolding add_instrs
  add_instrs_lem [] refs = (ground arith, ground arith)
  add_instrs_lem (i ∷ instrs) refs =
      let next = add_call_targets resolve (resolve i.addr) i.targets refs in
      let (edges, orphans) = add_call_targets_lem (resolve i.addr) i.targets refs in
      let (edges', orphans') = add_instrs_lem instrs next in
      (edges' ∙ rw edges (ground arith), orphans' ∙ rw orphans (ground arith))

has_ref-empty_graph : (funcs : FuncMap) (s t : String) → has_ref (empty_graph funcs) s t ≡ false
unfolding empty_graph neighbours
has_ref-empty_graph [] s t = refl
has_ref-empty_graph ((k, fi) ∷ funcs) s t = ground (arith, has_ref-empty_graph funcs s t)

-- In the result of `build_ref_graph`, and in that of `build_ref_graph_fast` with its own resolver,
-- `s` has an edge to `t` exactly if `t` is another function and some instruction that resolves to
-- `s` has a target that resolves to `t`; and `t` is an orphan reference exactly if some instruction
-- that resolves to no function has a target that resolves to `t`.
pub build_ref_graph_edges :
    (funcs : FuncMap) (instrs : List DecodedInstr) (search : AddrIndex → ℕ → Option ℕ)
    (s t : String)
    → let slow = λ (a : ℕ). resolve_addr a funcs in
      let fast = λ (a : ℕ). resolve_addr_fast search a (build_addr_index funcs) in
      (has_ref (build_ref_graph funcs instrs).0 s t ≡ any (refers slow s t) instrs)
      × (contains (build_ref_graph funcs instrs).1 t ≡ any (refers_from_outside slow s t) instrs)
      × (has_ref (build_ref_graph_fast search funcs instrs).0 s t ≡ any (refers fast s t) instrs)
      × (contains (build_ref_graph_fast search funcs instrs).1 t
          ≡ any (refers_from_outside fast s t) instrs)
unfolding build_ref_graph build_ref_graph_fast
build_ref_graph_edges funcs instrs search s t =
    let slow = λ (a : ℕ). resolve_addr a funcs in
    let fast = λ (a : ℕ). resolve_addr_fast search a (build_addr_index funcs) in
    let start = has_ref-empty_graph funcs s t in
    let (edges, orphans) = add_instrs_lem slow s t instrs (empty_graph funcs, []) in
    let (edges', orphans') = add_instrs_lem fast s t instrs (empty_graph funcs, []) in
    (
      edges ∙ ap (λ (b : Bool). b || any (refers slow s t) instrs) start,
      orphans,
      edges' ∙ ap (λ (b : Bool). b || any (refers fast s t) instrs) start,
      orphans',
    )

-- ===== src/Decode/Callgraph.antt =====
-- src/decode/callgraph.rs: the reference graph of the functions, and the orphan references.
pub mod Edges
use trim.Prelude.{
  ℕ, zero, suc, ◌+◌, ◌-◌, Bool, true, false, not, List, [], ◌∷◌, Option, none, some, String, leb,
  ltb, ◌==◌, ◌&&◌, if◌then◌else◌, wrapping_add, find, keep, map, length, get_elem?, str_eq,
  string_eq,
}
use trim.Types.{FuncInfo, FuncMap, RefGraph, DecodedInstr}
use trim.Analysis.Reachability.{insert_name}

abbrev pub name_of : Option (String × FuncInfo) → Option String
name_of none = none
name_of (some (name, fi)) = some name

abbrev pub holds_addr : ℕ → FuncInfo → Bool
holds_addr addr fi = leb fi.addr addr && ltb addr (wrapping_add fi.addr fi.size)

-- A function that starts at the address, else one that holds it.
unfoldable pub resolve_addr : ℕ → FuncMap → Option String
resolve_addr addr funcs =
    let inside = name_of (find (λ f. holds_addr addr f.1) funcs) in
    elim (find (λ f. f.1.addr == addr) funcs) [ none ↦ inside | some f ↦ some f.0 ]

-- `graph.entry(src).or_default().insert(tgt)`
unfoldable pub add_ref : RefGraph → String → String → RefGraph
add_ref [] src tgt = (src, tgt ∷ []) ∷ []
add_ref ((k, cs) ∷ graph) src tgt = elim (str_eq k src) [
  | true ↦ (k, insert_name cs tgt) ∷ graph
  | false ↦ (k, cs) ∷ add_ref graph src tgt
]

-- The graph and the orphan references.
abbrev pub Refs : Type 0
Refs = RefGraph × List String

-- What one resolved target adds, by the resolved source.
unfoldable pub add_target : Refs → Option String → Option String → Refs
add_target (graph, orphans) src none = (graph, orphans)
add_target (graph, orphans) none (some tgt) = (graph, insert_name orphans tgt)
add_target (graph, orphans) (some src) (some tgt) =
    if str_eq src tgt then (graph, orphans) else (add_ref graph src tgt, orphans)

-- The two loops, which `build_ref_graph` and `build_ref_graph_fast` share but for the resolver.
module _ (resolve : ℕ → Option String) where
  unfoldable pub add_call_targets : Option String → List ℕ → Refs → Refs
  add_call_targets src [] refs = refs
  add_call_targets src (t ∷ targets) refs =
      add_call_targets src targets (add_target refs src (resolve t))

  unfoldable pub add_instrs : List DecodedInstr → Refs → Refs
  add_instrs [] refs = refs
  add_instrs (i ∷ instrs) refs =
      add_instrs instrs (add_call_targets (resolve i.addr) i.targets refs)

unfoldable pub empty_graph : FuncMap → RefGraph
empty_graph [] = []
empty_graph ((k, fi) ∷ funcs) = (k, []) ∷ empty_graph funcs

unfoldable pub build_ref_graph : FuncMap → List DecodedInstr → Refs
build_ref_graph funcs instrs = add_instrs (λ a. resolve_addr a funcs) instrs (empty_graph funcs, [])

-- `(start, end, name)`
abbrev pub AddrIndex : Type 0
AddrIndex = List (ℕ × ℕ × String)

-- `sort_by_key` on the start: a stable sort, as insertion.
unfoldable pub insert_range : ℕ × ℕ × String → AddrIndex → AddrIndex
insert_range r [] = r ∷ []
insert_range r (x ∷ xs) = if leb r.0 x.0 then r ∷ x ∷ xs else x ∷ insert_range r xs

unfoldable pub build_addr_index : FuncMap → AddrIndex
build_addr_index [] = []
build_addr_index ((n, fi) ∷ funcs) =
    insert_range (fi.addr, wrapping_add fi.addr fi.size, n) (build_addr_index funcs)

-- `partition_point`, on an index that is sorted.
unfoldable pub partition_point : ℕ → AddrIndex → ℕ
partition_point addr [] = 0
partition_point addr (r ∷ index) =
    let rest = partition_point addr index in if leb r.0 addr then suc rest else 0

abbrev pub name_at : AddrIndex → ℕ → Option String
name_at index i = elim (get_elem? index i) [ none ↦ none | some r ↦ some r.2 ]

-- The range match at the entry before the insertion point.
unfoldable pub range_match : ℕ → AddrIndex → Option String
range_match addr index =
    let i = partition_point addr index in
    if i == 0 then none else elim (get_elem? index (i - 1)) [
      | none ↦ none
      | some r ↦ if leb r.0 addr && ltb addr r.1 then some r.2 else none
    ]

-- `search` is the library's binary search: of several entries with the key it may find any.
unfoldable pub resolve_addr_fast : (AddrIndex → ℕ → Option ℕ) → ℕ → AddrIndex → Option String
resolve_addr_fast search addr index = elim (search index addr) [
  | some i ↦ name_at index i
  | none ↦ range_match addr index
]

unfoldable pub build_ref_graph_fast :
    (AddrIndex → ℕ → Option ℕ) → FuncMap → List DecodedInstr → Refs
build_ref_graph_fast search funcs instrs =
    let index = build_addr_index funcs in
    add_instrs (λ a. resolve_addr_fast search a index) instrs (empty_graph funcs, [])

unfoldable pub funcs_at_addr : ℕ → FuncMap → List String
funcs_at_addr addr funcs = map (λ f. f.0) (keep (λ f. f.1.addr == addr) funcs)

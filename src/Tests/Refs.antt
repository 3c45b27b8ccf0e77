-- ===== src/Tests/Refs.antt =====
-- src/decode/callgraph.rs: `main` at 100 calls into `run` at 200, and code at 400 that is in no
-- function calls `run` too.
use trim.Prelude.{
  ℕ, ◌==◌, true, false, List, [], ◌∷◌, Option, none, some, String, ◌≡◌, any, string_eq,
}
use trim.Prelude.Sets.{contains}
use trim.Types.{FuncMap, FlowType, DecodedInstr}
use trim.Decode.Callgraph.{
  AddrIndex, build_ref_graph, build_ref_graph_fast, build_addr_index, resolve_addr,
  resolve_addr_fast,
}
use trim.Decode.Callgraph.Edges.{has_ref, refers, refers_from_outside, build_ref_graph_edges}

abbrev funcs : FuncMap
funcs =
    ("main", record { addr = 100; size = 16; is_global = true })
    ∷ ("run", record { addr = 200; size = 16; is_global = false })
    ∷ []

abbrev call_at : ℕ → DecodedInstr
call_at a = record {
  addr = a;
  raw = [];
  len = 4;
  targets = 204 ∷ [];
  pc_rel_target = none;
  is_call = true;
  flow = FlowType.call;
}

abbrev instrs : List DecodedInstr
instrs = call_at 104 ∷ call_at 400 ∷ []

-- A search that finds the first entry with the key.
abbrev search : AddrIndex → ℕ → Option ℕ
search [] addr = none
search (r ∷ index) addr = elim (r.0 == addr) [ true ↦ some 0 | false ↦ none ]

abbrev slow : ℕ → Option String
slow a = resolve_addr a funcs

abbrev fast : ℕ → Option String
fast a = resolve_addr_fast search a (build_addr_index funcs)

build_ref_graph_edges_example :
    (has_ref (build_ref_graph funcs instrs).0 "main" "run" ≡ any (refers slow "main" "run") instrs)
    × (contains (build_ref_graph funcs instrs).1 "run"
        ≡ any (refers_from_outside slow "main" "run") instrs)
    × (has_ref (build_ref_graph_fast search funcs instrs).0 "main" "run"
        ≡ any (refers fast "main" "run") instrs)
    × (contains (build_ref_graph_fast search funcs instrs).1 "run"
        ≡ any (refers_from_outside fast "main" "run") instrs)
build_ref_graph_edges_example = build_ref_graph_edges funcs instrs search "main" "run"

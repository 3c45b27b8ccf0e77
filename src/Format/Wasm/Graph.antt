-- ===== src/Format/Wasm/Graph.antt =====
-- src/format/wasm/mod.rs: the module as a list of functions and a call graph, and its live functions.
-- What wasmparser reads is a parameter: the payloads of a file, in order, or its refusal. The name
-- of a function without an export is `format!`'s, and a parameter too.
pub mod Queue
pub mod Search
pub mod Dead
pub mod Named
use trim.Prelude.{
  ℕ, zero, suc, ◌+◌, ◌-◌, ◌%◌, ◌^◌, Bool, true, false, not, List, [], ◌∷◌, ◌++◌, Option, none, some,
  ◌==◌, ◌||◌, if◌then◌else◌, String, str_eq, string_eq, nat_eq, length, keep, map,
}
use trim.Prelude.Sets.{contains}
use trim.Prelude.Worklist.Graph.{neighbours, edges}
use trim.Types.{FuncInfo, FuncMap, Section}
use trim.Analysis.Cfg.{DeadBlock}
use trim.Format.Ranges.{DeadMap, insert_name, contains_key}
use trim.Format.Wasm.Scan.{WasmFunc, scan_wasm_body_dead}

-- The payloads that `parse_module` looks at. An item that wasmparser refuses is `none`; `broken` is a
-- section whose refusal ends the parse. A body comes with its range and its operators, of which a
-- `call` gives the function that it names; an operator that is refused, and a body with no
-- operators to read, are `none`.
pub data Payload : Type 0 where
  imports : List (Option Bool) → Payload
  exports : List (Option (Option (ℕ × String))) → Payload
  start : ℕ → Payload
  elements : List (Option (List (Option ℕ))) → Payload
  code_entry : ℕ → ℕ → Option (List (Option (Option ℕ))) → Payload
  broken : Payload
  other : Payload

pub record WasmModule : Type 0 where
  pub functions : List WasmFunc
  pub roots : List ℕ
  pub call_graph : List (ℕ × List ℕ)

-- The variables of the loop.
pub record Parsed : Type 0 where
  pub num_imports : ℕ
  pub code_idx : ℕ
  pub func_names : List (ℕ × String)
  pub result : WasmModule

-- `func_names.get`, where the last insert of a key is the one that counts.
unfoldable pub func_name : List (ℕ × String) → ℕ → Option String
func_name [] idx = none
func_name ((k, name) ∷ names) idx = elim (func_name names idx) [
  | some later ↦ some later
  | none ↦ if k == idx then some name else none
]

-- The imports that are functions.
abbrev pub count_funcs : List (Option Bool) → ℕ
count_funcs [] = 0
count_funcs (some true ∷ items) = count_funcs items + 1
count_funcs (_ ∷ items) = count_funcs items

abbrev pub exported : List (Option (Option (ℕ × String))) → List (ℕ × String)
exported [] = []
exported (some (some e) ∷ items) = e ∷ exported items
exported (_ ∷ items) = exported items

abbrev pub all_some {ℓ} : {A : Type ℓ} → List (Option A) → List A
all_some [] = []
all_some (some x ∷ xs) = x ∷ all_some xs
all_some (none ∷ xs) = all_some xs

-- `parse_elements`, where the items that are expressions are an empty list.
unfoldable pub parse_elements : List (Option (List (Option ℕ))) → List ℕ
parse_elements [] = []
parse_elements (none ∷ elems) = parse_elements elems
parse_elements (some items ∷ elems) = all_some items ++ parse_elements elems

unfoldable pub calls_of : List (Option (Option ℕ)) → List ℕ
calls_of [] = []
calls_of (none ∷ operators) = []
calls_of (some none ∷ operators) = calls_of operators
calls_of (some (some function_index) ∷ operators) = function_index ∷ calls_of operators

unfoldable pub extract_calls : Option (List (Option (Option ℕ))) → List ℕ
extract_calls none = []
extract_calls (some operators) = calls_of operators

module _ (format_name : ℕ → String) where
  -- One round; `none` ends the parse.
  unfoldable pub parse_payload : Payload → Parsed → Option Parsed
  parse_payload (imports items) p = some record {
    num_imports = p.num_imports + count_funcs items;
    code_idx = p.code_idx;
    func_names = p.func_names;
    result = p.result;
  }
  parse_payload (exports items) p = some record {
    num_imports = p.num_imports;
    code_idx = p.code_idx;
    func_names = p.func_names ++ exported items;
    result = record {
      functions = p.result.functions;
      roots = p.result.roots ++ map (λ (e : ℕ × String). e.0) (exported items);
      call_graph = p.result.call_graph;
    };
  }
  parse_payload (start func) p = some record {
    num_imports = p.num_imports;
    code_idx = p.code_idx;
    func_names = p.func_names;
    result = record {
      functions = p.result.functions;
      roots = p.result.roots ++ func ∷ [];
      call_graph = p.result.call_graph;
    };
  }
  parse_payload (elements elems) p = some record {
    num_imports = p.num_imports;
    code_idx = p.code_idx;
    func_names = p.func_names;
    result = record {
      functions = p.result.functions;
      roots = p.result.roots ++ parse_elements elems;
      call_graph = p.result.call_graph;
    };
  }
  parse_payload (code_entry range_start range_end operators) p =
      let func_idx = (p.num_imports + p.code_idx) % 2 ^ 32 in
      let name : String = elim (func_name p.func_names func_idx) [
        | some exported_name ↦ exported_name
        | none ↦ format_name func_idx
      ] in
      some record {
        num_imports = p.num_imports;
        code_idx = p.code_idx + 1;
        func_names = p.func_names;
        result = record {
          functions =
              p.result.functions
              ++ record {
                index = func_idx;
                name = name;
                body_offset = range_start;
                body_size = range_end - range_start;
              }
                ∷ [];
          roots = p.result.roots;
          call_graph = p.result.call_graph ++ (func_idx, extract_calls operators) ∷ [];
        };
      }
  parse_payload broken p = none
  parse_payload other p = some p

  unfoldable pub parse_payloads : List Payload → Parsed → Option Parsed
  parse_payloads [] p = some p
  parse_payloads (payload ∷ rest) p = elim (parse_payload payload p) [
    | none ↦ none
    | some p' ↦ parse_payloads rest p'
  ]

  unfoldable pub parse_module : List Payload → Option WasmModule
  parse_module payloads =
      elim (parse_payloads payloads record {
        num_imports = 0;
        code_idx = 0;
        func_names = [];
        result = record { functions = []; roots = []; call_graph = [] };
      }) [ none ↦ none | some p ↦ some p.result ]

unfoldable pub func_map_from : List ℕ → List WasmFunc → FuncMap → FuncMap
func_map_from roots [] funcs = funcs
func_map_from roots (f ∷ functions) funcs = func_map_from roots functions (
    insert_name f.name
      record { addr = f.body_offset; size = f.body_size; is_global = contains roots f.index } funcs)

unfoldable pub build_func_map : WasmModule → FuncMap
build_func_map module' = func_map_from module'.roots module'.functions []

-- What is not visited yet is marked and queued.
unfoldable pub enqueue : List ℕ → List ℕ × List ℕ → List ℕ × List ℕ
enqueue [] (visited, queue) = (visited, queue)
enqueue (x ∷ xs) (visited, queue) =
    enqueue xs
      (if contains visited x then (visited, queue) else (visited ++ x ∷ [], queue ++ x ∷ []))

-- The loop; `none` would mean that the fuel was too small.
unfoldable pub bfs_from : (ℕ → List ℕ) → ℕ → List ℕ → List ℕ → Option (List ℕ)
bfs_from callees zero visited queue = elim queue [ [] ↦ some visited | _ ∷ _ ↦ none ]
bfs_from callees (suc fuel) visited queue = elim queue [
  | [] ↦ some visited
  | idx ∷ rest ↦
      let (visited', queue') = enqueue (callees idx) (visited, rest) in
      bfs_from callees fuel visited' queue'
]

unfoldable pub bfs_live : WasmModule → Option (List ℕ)
bfs_live module' =
    let (visited, queue) = enqueue module'.roots ([], []) in
    bfs_from (neighbours module'.call_graph) (length module'.roots + edges module'.call_graph)
      visited queue

-- The functions that are not live, by name.
unfoldable pub dead_from : List ℕ → List WasmFunc → DeadMap → DeadMap
dead_from live [] dead = dead
dead_from live (f ∷ functions) dead =
    dead_from live functions
      (if contains live f.index then dead else insert_name f.name (f.body_offset, f.body_size) dead)

unfoldable pub find_dead_functions : WasmModule → Option (DeadMap)
find_dead_functions module' = elim (bfs_live module') [
  | none ↦ none
  | some live ↦ some (dead_from live module'.functions [])
]

unfoldable pub analyze_wasm : Option WasmModule → Option (FuncMap × DeadMap × List Section)
analyze_wasm none = some ([], [], [])
analyze_wasm (some module') =
    let funcs = build_func_map module' in
    if length funcs == 0
    then some ([], [], [])
    else (elim (find_dead_functions module') [ none ↦ none | some dead ↦ some (funcs, dead, []) ])

-- The functions whose bodies are scanned: live, and not among the dead ones by name.
abbrev pub is_scanned : List ℕ → DeadMap → WasmFunc → Bool
is_scanned live dead_funcs f = not (not (contains live f.index) || contains_key dead_funcs f.name)

unfoldable pub scan_all : List ℕ → List WasmFunc → Option (List DeadBlock)
scan_all bytes [] = some []
scan_all bytes (f ∷ functions) = elim (scan_wasm_body_dead bytes f) [
  | none ↦ none
  | some blocks ↦ elim (scan_all bytes functions) [
    | none ↦ none
    | some rest ↦ some (blocks ++ rest)
  ]
]

unfoldable pub find_wasm_dead_blocks :
    Option WasmModule → List ℕ → DeadMap → Option (List DeadBlock)
find_wasm_dead_blocks none bytes dead_funcs = some []
find_wasm_dead_blocks (some module') bytes dead_funcs = elim (bfs_live module') [
  | none ↦ none
  | some live ↦ scan_all bytes (keep (is_scanned live dead_funcs) module'.functions)
]

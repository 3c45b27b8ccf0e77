-- ===== src/Analysis/Reachability.antt =====
-- src/analysis/reachability.rs and roots.rs: which functions are live. The maps and sets of the
-- source are lists here, in the order in which the map is walked; no theorem fixes that order.
pub mod Graph
pub mod Aliases
pub mod Live
pub mod Fixpoint
pub mod Dead
use trim.Prelude.{
  ℕ, zero, suc, ◌+◌, Bool, true, false, not, List, [], ◌∷◌, ◌++◌, Option, none, some, String, leb,
  ◌==◌, ◌&&◌, ◌||◌, if◌then◌else◌, length, keep, map, any, str_eq, string_eq, nat_eq,
}
use trim.Prelude.Sets.{contains}
use trim.Prelude.Worklist.{worklist}
use trim.Prelude.Worklist.Graph.{neighbours, edges}
use trim.Types.{FuncInfo, FuncMap, RefGraph}

-- `graph.get(name)`; the loop over the callees of a missing name is the loop over none.
abbrev pub callees : RefGraph → String → List String
callees graph name = neighbours graph name

-- Breadth-first search from the roots; `none` would mean that the fuel was too small.
unfoldable pub bfs : List String → RefGraph → Option (List String)
bfs roots graph = worklist (callees graph) (edges graph + length roots) [] roots

-- `funcs.get(n).map(|fi| fi.addr)`
unfoldable pub func_addr : FuncMap → String → Option ℕ
func_addr [] name = none
func_addr ((k, fi) ∷ funcs) name = elim (str_eq k name) [
  | true ↦ some fi.addr
  | false ↦ func_addr funcs name
]

-- The addresses of the live functions.
unfoldable pub live_addrs : FuncMap → List String → List ℕ
live_addrs funcs [] = []
live_addrs funcs (n ∷ live) = elim (func_addr funcs n) [
  | none ↦ live_addrs funcs live
  | some a ↦ a ∷ live_addrs funcs live
]

-- `live.insert(name)`
abbrev pub insert_name : List String → String → List String
insert_name live name = if contains live name then live else live ++ name ∷ []

-- Every function at a live address is made live. The source goes through a map from addresses to
-- names; here the functions are walked and their addresses looked up in the set.
unfoldable pub add_aliases : List ℕ → FuncMap → List String → List String
add_aliases addrs [] live = live
add_aliases addrs ((k, fi) ∷ funcs) live =
    add_aliases addrs funcs (if contains addrs fi.addr then insert_name live k else live)

-- The fixpoint loop of `compute_live_set`.
unfoldable pub live_loop : ℕ → RefGraph → FuncMap → List String → Option (List String)
live_loop zero graph funcs live = none
live_loop (suc fuel) graph funcs live =
    elim (bfs (add_aliases (live_addrs funcs live) funcs live) graph) [
      | none ↦ none
      | some live' ↦ elim (length live' == length live) [
        | true ↦ some live'
        | false ↦ live_loop fuel graph funcs live'
      ]
    ]

unfoldable pub compute_live_set : List String → RefGraph → FuncMap → Option (List String)
compute_live_set roots graph funcs = elim (bfs roots graph) [
  | none ↦ none
  | some live ↦ live_loop (suc (length funcs)) graph funcs live
]

-- The functions that are not live and have at least 4 bytes.
unfoldable pub find_dead : FuncMap → List String → List (String × ℕ × ℕ)
find_dead [] live = []
find_dead ((name, fi) ∷ funcs) live = elim (not (contains live name) && leb 4 fi.size) [
  | true ↦ (name, fi.addr, fi.size) ∷ find_dead funcs live
  | false ↦ find_dead funcs live
]

-- The runtime and start-up symbols (constants.rs).
abbrev pub runtime_keep : List String
runtime_keep =
    "_start" ∷ "main" ∷ "_init" ∷ "_fini" ∷ "__libc_start_main" ∷ "__libc_csu_init"
    ∷ "__libc_csu_fini" ∷ "__libc_start_call_main" ∷ "_dl_relocate_static_pie" ∷ "frame_dummy"
    ∷ "register_tm_clones" ∷ "deregister_tm_clones" ∷ "__do_global_dtors_aux"
    ∷ "__do_global_ctors_aux" ∷ "__init_libc" ∷ "__init_tls" ∷ "__copy_tls" ∷ "atexit"
    ∷ "__cxa_atexit" ∷ "__cxa_finalize" ∷ "exit" ∷ "_exit" ∷ "__stack_chk_fail"
    ∷ "__stack_chk_guard" ∷ "_start_c" ∷ "__funcs_on_exit" ∷ "__stdio_exit" ∷ "__libc_exit_fini"
    ∷ "__dls3" ∷ "__dls2b" ∷ "DllMain" ∷ "DllMainCRTStartup" ∷ "WinMainCRTStartup"
    ∷ "mainCRTStartup" ∷ "_mainCRTStartup" ∷ "wmainCRTStartup" ∷ "__main" ∷ "__security_init_cookie"
    ∷ "__start" ∷ "__aeabi_unwind_cpp_pr0" ∷ "__aeabi_unwind_cpp_pr1" ∷ "__aeabi_unwind_cpp_pr2"
    ∷ "__aeabi_memcpy" ∷ "__aeabi_memset" ∷ "__aeabi_memclr" ∷ "__arm_personality_routine"
    ∷ "__gnu_unwind_frame" ∷ "_CRT_INIT" ∷ "__security_check_cookie" ∷ "_guard_check_icall" ∷ []

unfoldable pub is_root_func : String → FuncInfo → Bool
is_root_func name fi = contains runtime_keep name || fi.is_global

unfoldable pub root_names : FuncMap → List String
root_names [] = []
root_names ((name, fi) ∷ funcs) = elim (is_root_func name fi) [
  | true ↦ name ∷ root_names funcs
  | false ↦ root_names funcs
]

unfoldable pub determine_roots : FuncMap → List String → List String → List String
determine_roots funcs data_ref_names orphan_refs =
    root_names funcs ++ (data_ref_names ++ orphan_refs)

-- ===== src/Analysis/Cfg.antt =====
-- src/analysis/cfg.rs and noreturn.rs: the code after calls that never return. `Build` has the
-- control flow graph of a function, `Unreachable` the blocks that its entry does not reach.
pub mod Region
pub mod Build
pub mod Tiling
pub mod Edges
pub mod Predecessors
pub mod Unreachable
use text.Mathlib.Text.{starts_with}
use trim.Prelude.{
  ℕ, zero, suc, ◌+◌, ◌-◌, Bool, true, false, not, List, [], ◌∷◌, ◌++◌, Option, none, some, String,
  leb, ltb, ◌==◌, ◌&&◌, ◌||◌, if◌then◌else◌, wrapping_add, wrapping_sub, any, keep, str_eq, nat_eq,
  string_eq,
}
use trim.Prelude.Sets.{contains}
use trim.Types.{FuncInfo, FuncMap, FlowType, DecodedInstr}

-- Import thunk addresses to symbol names.
abbrev pub ImportNames : Type 0
ImportNames = List (ℕ × String)

-- A dead region inside a live function.
pub record DeadBlock : Type 0 where
  pub func_name : String
  pub addr : ℕ
  pub size : ℕ

abbrev pub noreturn_funcs : List String
noreturn_funcs =
    "exit" ∷ "_exit" ∷ "_Exit" ∷ "abort" ∷ "__stack_chk_fail" ∷ "__assert_fail" ∷ "__assert_rtn"
    ∷ "longjmp" ∷ "_longjmp" ∷ "siglongjmp" ∷ "__cxa_throw" ∷ "__cxa_rethrow" ∷ "pthread_exit"
    ∷ "thrd_exit" ∷ "ExitProcess" ∷ "TerminateProcess" ∷ "RaiseException" ∷ "__fortify_fail"
    ∷ "__libc_fatal" ∷ "__builtin_unreachable" ∷ "__ubsan_handle_builtin_unreachable"
    ∷ "rust_begin_unwind" ∷ "__assert2" ∷ []

unfoldable pub is_noreturn_name : String → Bool
is_noreturn_name name = contains noreturn_funcs name

-- `import_names.get(&tgt)`
unfoldable pub import_name : ImportNames → ℕ → Option String
import_name [] tgt = none
import_name ((a, name) ∷ rest) tgt = elim (a == tgt) [
  | true ↦ some name
  | false ↦ import_name rest tgt
]

abbrev pub is_noreturn_target : FuncMap → ImportNames → ℕ → Bool
is_noreturn_target funcs import_names tgt =
    elim (import_name import_names tgt) [ none ↦ false | some name ↦ is_noreturn_name name ]
    || any (λ f. f.1.addr == tgt && is_noreturn_name f.0) funcs

unfoldable pub is_noreturn_call : DecodedInstr → FuncMap → ImportNames → Bool
is_noreturn_call instr funcs import_names =
    any (is_noreturn_target funcs import_names) instr.targets

unfoldable pub should_analyze : String → FuncInfo → List String → Bool
should_analyze name fi live_funcs =
    contains live_funcs name && (leb 16 fi.size && not (starts_with name "sub_"))

abbrev pub instrs_between : ℕ → ℕ → List DecodedInstr → List DecodedInstr
instrs_between from stop instrs = keep (λ i. leb from i.addr && ltb i.addr stop) instrs

abbrev pub targets_between : ℕ → ℕ → List ℕ → List ℕ
targets_between from stop targets = keep (λ t. leb from t && ltb t stop) targets

-- The branch targets inside the function, as a set.
unfoldable pub collect_branch_targets : List DecodedInstr → ℕ → ℕ → List ℕ
collect_branch_targets [] func_start func_end = []
collect_branch_targets (i ∷ instrs) func_start func_end =
    (if i.is_call then [] else targets_between func_start func_end i.targets)
    ++ collect_branch_targets instrs func_start func_end

-- Only a call that never returns starts a dead region.
unfoldable pub is_dead_start : DecodedInstr → FuncMap → ImportNames → Bool
is_dead_start instr funcs import_names = elim instr.flow [
  | FlowType.call ↦ is_noreturn_call instr funcs import_names
  | _ ↦ false
]

-- The loop over the instructions behind the call.
unfoldable pub find_dead_end : List DecodedInstr → ℕ → List ℕ → ℕ
find_dead_end [] func_end branch_targets = func_end
find_dead_end (i ∷ later) func_end branch_targets = elim (leb func_end i.addr) [
  | true ↦ func_end
  | false ↦ elim (contains branch_targets i.addr) [
    | true ↦ i.addr
    | false ↦ find_dead_end later func_end branch_targets
  ]
]

unfoldable pub scan_dead_region : DecodedInstr → List DecodedInstr → ℕ → List ℕ → Option (ℕ × ℕ)
scan_dead_region start later func_end branch_targets =
    let dead_start = wrapping_add start.addr start.len in
    let size = wrapping_sub (find_dead_end later func_end branch_targets) dead_start in
    if leb func_end dead_start then none else if leb 2 size then some (dead_start, size) else none

unfoldable pub find_post_noreturn_dead :
    String → List DecodedInstr → FuncMap → ImportNames → List ℕ → ℕ → List DeadBlock
find_post_noreturn_dead name [] funcs import_names branch_targets func_end = []
find_post_noreturn_dead name (i ∷ later) funcs import_names branch_targets func_end =
    let region =
      if is_dead_start i funcs import_names
      then scan_dead_region i later func_end branch_targets
      else none in
    elim region [ none ↦ [] | some (a, n) ↦ record { func_name = name; addr = a; size = n } ∷ [] ]
    ++ find_post_noreturn_dead name later funcs import_names branch_targets func_end

unfoldable pub find_dead_in_func :
    String → FuncInfo → List DecodedInstr → FuncMap → ImportNames → List DeadBlock
find_dead_in_func name fi instrs funcs import_names =
    let func_end = wrapping_add fi.addr fi.size in
    let func_instrs = instrs_between fi.addr func_end instrs in
    elim func_instrs [
      | [] ↦ []
      | i ∷ rest ↦
          find_post_noreturn_dead name (i ∷ rest) funcs import_names
            (collect_branch_targets (i ∷ rest) fi.addr func_end) func_end
    ]

-- The loop over the function map; `walked` is the part of the map still to come.
unfoldable pub dead_blocks_of :
    FuncMap → FuncMap → List DecodedInstr → List String → ImportNames → List DeadBlock
dead_blocks_of [] funcs instrs live_funcs import_names = []
dead_blocks_of ((name, fi) ∷ walked) funcs instrs live_funcs import_names =
    (if should_analyze name fi live_funcs
      then find_dead_in_func name fi instrs funcs import_names
      else [])
    ++ dead_blocks_of walked funcs instrs live_funcs import_names

unfoldable pub find_dead_blocks :
    FuncMap → List DecodedInstr → List String → ImportNames → List DeadBlock
find_dead_blocks funcs instrs live_funcs import_names =
    dead_blocks_of funcs funcs instrs live_funcs import_names

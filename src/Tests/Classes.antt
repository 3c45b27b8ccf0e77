-- ===== src/Tests/Classes.antt =====
-- src/format/java on the code of small methods.
use trim.Prelude.{
  ℕ, ◌+◌, true, List, [], ◌∷◌, map, Option, some, none, ◌≡◌, ◌↔◌, refl, arith, All, take, drop,
  get_elem?, nat_eq,
}
use trim.Prelude.Sets.{contains}
use trim.Prelude.Worklist.{worklist}
use trim.Prelude.Worklist.Graph.{neighbours, edges, search_from}
use trim.Types.Pointer.{to_le_bytes, from_le_bytes}
use trim.Patch.Relocs.Count.{dead_before}
use trim.Format.Ranges.{DeadMap, insert_name, insert_range, sort_ranges}
use trim.Format.Java.Classfile.{utf8, MethodInfo, ClassFile, cp_utf8}
use trim.Format.Java.Bytecode.{
  scan_bytecode_calls, opcode_length, targets_at, targets_from, collect_branch_targets, dead_round,
  dead_from, scan_dead_in_method,
}
use trim.Format.Java.Bytecode.Targets.{IsUnbranched, scan_dead_in_method-IsUnbranched}
use trim.Format.Java.Compact.{
  switch_from, has_switch, stack_map_from, has_stack_map, java_shift, new_operands, patch_from,
  patch_code_branches, excise_from, excise_ranges, rebuild_method_bytes, relative_ranges,
  compact_code, refuses, compact_method_code,
}
use trim.Format.Java.Compact.Branches.{lands, meant, patch_code_branches-branches}
use trim.Format.Java.Compact.Walk.{branch_at, branches_from, branches}
use trim.Format.Java.Compact.Guards.{NoSwitch, NoStackMap}
use trim.Format.Java.Compact.Refusals.{compact_method_code_sound}
use trim.Format.Java.Methods.{
  indices, call_graph, bfs_live, find_dead_methods, dead_methods, dead_indices,
}
use trim.Format.Java.Methods.Unused.{UnusedNamesake, dead_indices-Used}

-- goto to the return, two no-ops, return.
abbrev code : List ℕ
code = 0xa7 ∷ 0 ∷ 5 ∷ 0 ∷ 0 ∷ 0xb1 ∷ []

patch_code_branches-branches_example :
    map (lands ((3, 5) ∷ [])) (branches (patch_code_branches code ((3, 5) ∷ [])))
    ≡ map (meant ((3, 5) ∷ [])) (branches code)
unfolding switch_from opcode_length branches branches_from branch_at from_le_bytes
patch_code_branches-branches_example =
    patch_code_branches-branches code ((3, 5) ∷ []) (omega arith, omega arith, omega arith)
      (omega arith) refl (omega arith, tt)

patch_run : patch_code_branches code ((3, 5) ∷ []) ≡ 0xa7 ∷ 0 ∷ 3 ∷ 0 ∷ 0 ∷ 0xb1 ∷ []
unfolding patch_code_branches patch_from new_operands java_shift opcode_length to_le_bytes
    from_le_bytes
patch_run = refl

abbrev named : ℕ → Option ℕ → MethodInfo
named name_index code_offset = record {
  access_flags = 0;
  name_index = name_index;
  descriptor_index = 0;
  code_offset = code_offset;
  code_length = 6;
  code_attr_offset = some 8;
  exception_table_len = 0;
  raw_offset = 0;
  raw_size = 32;
}

-- `main`, and two methods that no call reaches.
abbrev cf : ClassFile
cf = record {
  constant_pool = utf8 "main" ∷ utf8 "f" ∷ utf8 "Code" ∷ [];
  access_flags = 0;
  methods = named 0 none ∷ named 1 none ∷ named 1 none ∷ [];
  methods_count_offset = 0;
  total_size = 0;
}

find_dead_run : find_dead_methods [] cf ≡ some (("f", (0, 32)) ∷ [])
unfolding find_dead_methods bfs_live search_from worklist neighbours edges indices call_graph
    cp_utf8 dead_methods insert_name scan_bytecode_calls
find_dead_run = refl

dead_indices-Used_example :
    (dead : DeadMap) × (find_dead_methods [] cf ≡ some dead)
    × ((i : ℕ) (m : MethodInfo)
        → get_elem? cf.methods i ≡ some m
        → (contains (dead_indices cf dead) i ≡ true) ↔ ∥ UnusedNamesake [] cf m ∥₁)
dead_indices-Used_example = dead_indices-Used [] cf

-- A public method and a dead one of the same name: both are left out.
abbrev overloaded : ClassFile
overloaded = record {
  constant_pool = cf.constant_pool;
  access_flags = 0;
  methods =
      record {
        access_flags = 1;
        name_index = 1;
        descriptor_index = 0;
        code_offset = none;
        code_length = 0;
        code_attr_offset = none;
        exception_table_len = 0;
        raw_offset = 0;
        raw_size = 8;
      }
      ∷ named 1 none
      ∷ [];
  methods_count_offset = 0;
  total_size = 0;
}

live_run : bfs_live [] overloaded ≡ some (0 ∷ [])
unfolding bfs_live search_from worklist neighbours edges indices call_graph cp_utf8
live_run = refl

overloaded_run : dead_indices overloaded (("f", (0, 32)) ∷ []) ≡ 0 ∷ 1 ∷ []
unfolding dead_indices indices cp_utf8
overloaded_run = refl

scan_dead_in_method-IsUnbranched_example :
    All (IsUnbranched 0 (take 6 (drop 0 code))) (scan_dead_in_method code cf 0 6 1)
scan_dead_in_method-IsUnbranched_example =
    scan_dead_in_method-IsUnbranched code cf 0 6 1 (omega arith)

scan_run : scan_dead_in_method code cf 0 6 1 ≡ record { func_name = "f"; addr = 3; size = 2 } ∷ []
unfolding scan_dead_in_method dead_from dead_round collect_branch_targets targets_from targets_at
    opcode_length from_le_bytes cp_utf8
scan_run = refl

-- A method with this code: its header, that of the Code attribute, the code, no handlers, no
-- attributes.
abbrev method : List ℕ
method =
    0 ∷ 0 ∷ 0 ∷ 1 ∷ 0 ∷ 0 ∷ 0 ∷ 1 ∷ 0 ∷ 2 ∷ 0 ∷ 0 ∷ 0 ∷ 18 ∷ 0 ∷ 1 ∷ 0 ∷ 1 ∷ 0 ∷ 0 ∷ 0 ∷ 6 ∷ 0xa7
    ∷ 0 ∷ 5 ∷ 0 ∷ 0 ∷ 0xb1 ∷ 0 ∷ 0 ∷ 0 ∷ 0 ∷ []

abbrev compacted : List ℕ
compacted =
    0 ∷ 0 ∷ 0 ∷ 1 ∷ 0 ∷ 0 ∷ 0 ∷ 1 ∷ 0 ∷ 2 ∷ 0 ∷ 0 ∷ 0 ∷ 16 ∷ 0 ∷ 1 ∷ 0 ∷ 1 ∷ 0 ∷ 0 ∷ 0 ∷ 4 ∷ 0xa7
    ∷ 0 ∷ 3 ∷ 0xb1 ∷ 0 ∷ 0 ∷ 0 ∷ 0 ∷ []

compact_run :
    compact_method_code method (named 1 (some 22)) ((25, 27) ∷ []) cf.constant_pool ≡ some compacted
unfolding compact_method_code refuses has_switch switch_from opcode_length has_stack_map
    stack_map_from relative_ranges compact_code sort_ranges insert_range patch_code_branches
    patch_from new_operands java_shift excise_ranges excise_from rebuild_method_bytes to_le_bytes
    from_le_bytes
compact_run = refl

compact_method_code_sound_example :
    ((named 1 (some 22)).exception_table_len ≡ 0)
    × NoSwitch 22 code
    × NoStackMap method 28 cf.constant_pool
    × (30 + dead_before 6 ((3, 5) ∷ []) ≡ 32)
unfolding sort_ranges insert_range relative_ranges
compact_method_code_sound_example =
    compact_method_code_sound method (named 1 (some 22)) 22 ((25, 27) ∷ []) cf.constant_pool
      compacted refl (omega arith) (omega arith) (omega arith, omega arith, omega arith) compact_run

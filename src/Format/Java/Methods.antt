-- ===== src/Format/Java/Methods.antt =====
-- src/format/java/mod.rs: which methods of a class are live, and the class file without the others.
pub mod Removed
pub mod Used
pub mod Unused
use trim.Prelude.{
  wrapping_add, ℕ, zero, suc, ◌+◌, ◌-◌, ◌/◌, ◌%◌, ◌^◌, Bool, true, false, not, List, [], ◌∷◌, ◌++◌,
  map, Option, none, some, leb, ◌==◌, ◌&&◌, ◌||◌, if◌then◌else◌, String, str_eq, string_eq, nat_eq,
  length, take, drop, keep, Eq,
}
use trim.Prelude.Sets.{contains}
use trim.Prelude.Worklist.Graph.{search_from}
use trim.Types.{FuncInfo, FuncMap, Section}
use trim.Types.Pointer.{slice}
use trim.Patch.Relocs.{Intervals}
use trim.Analysis.Cfg.{DeadBlock}
use trim.Format.Ranges.{BlockRanges, DeadMap, push_range, ranges_of, insert_name, contains_key}
use trim.Format.Java.Classfile.{CpEntry, MethodInfo, ClassFile, cp_utf8, parse_classfile}
use trim.Format.Java.Bytecode.{scan_bytecode_calls, find_dead_branches}
use trim.Format.Java.Compact.{compact_method_code}

-- `access_flags & 0x0001` or `& 0x0004`.
abbrev pub is_public : MethodInfo → Bool
is_public m = m.access_flags % 2 == 1 || m.access_flags / 4 % 2 == 1

abbrev pub is_root : List CpEntry → MethodInfo → Bool
is_root pool m =
    let name = cp_utf8 pool m.name_index in
    (str_eq name "main" || (str_eq name "<init>" || str_eq name "<clinit>")) || is_public m

-- The indices of the methods that a test accepts.
unfoldable pub indices : (MethodInfo → Bool) → List MethodInfo → ℕ → List ℕ
indices p [] idx = []
indices p (m ∷ methods) idx =
    let rest = indices p methods (idx + 1) in if p m then idx ∷ rest else rest

unfoldable pub call_graph : List ℕ → ClassFile → List MethodInfo → ℕ → List (ℕ × List ℕ)
call_graph bytes cf [] idx = []
call_graph bytes cf (m ∷ methods) idx =
    let rest = call_graph bytes cf methods (idx + 1) in
    elim m.code_offset [
      | none ↦ rest
      | some co ↦ (idx, scan_bytecode_calls bytes cf co m.code_length) ∷ rest
    ]

unfoldable pub bfs_live : List ℕ → ClassFile → Option (List ℕ)
bfs_live bytes cf =
    search_from (indices (is_root cf.constant_pool) cf.methods 0) (call_graph bytes cf cf.methods 0)

unfoldable pub build_func_map : List CpEntry → List MethodInfo → FuncMap → FuncMap
build_func_map pool [] funcs = funcs
build_func_map pool (m ∷ methods) funcs =
    let name = cp_utf8 pool m.name_index in
    let info : FuncInfo = record {
      addr = m.raw_offset;
      size = m.raw_size;
      is_global = is_public m;
    } in
    build_func_map pool methods (if str_eq name "" then funcs else insert_name name info funcs)

-- The methods that are not live, by name.
unfoldable pub dead_methods : List CpEntry → List ℕ → List MethodInfo → ℕ → DeadMap → DeadMap
dead_methods pool live [] idx dead = dead
dead_methods pool live (m ∷ methods) idx dead =
    let name = cp_utf8 pool m.name_index in
    dead_methods pool live methods (idx + 1) (
      if contains live idx || str_eq name ""
      then dead
      else insert_name name (m.raw_offset, m.raw_size) dead)

unfoldable pub find_dead_methods : List ℕ → ClassFile → Option DeadMap
find_dead_methods bytes cf = elim (bfs_live bytes cf) [
  | none ↦ none
  | some live ↦ some (dead_methods cf.constant_pool live cf.methods 0 [])
]

unfoldable pub analyze_java : (List ℕ → String) → List ℕ → Option (FuncMap × DeadMap × List Section)
analyze_java from_utf8_lossy bytes = elim (parse_classfile from_utf8_lossy bytes) [
  | none ↦ some ([], [], [])
  | some cf ↦
      let funcs = build_func_map cf.constant_pool cf.methods [] in
      if length funcs == 0
      then some ([], [], [])
      else (elim (find_dead_methods bytes cf) [ none ↦ none | some dead ↦ some (funcs, dead, []) ])
]

-- The methods whose name is that of a dead one.
unfoldable pub dead_indices : ClassFile → DeadMap → List ℕ
dead_indices cf dead =
    indices (λ m. contains_key dead (cp_utf8 cf.constant_pool m.name_index)) cf.methods 0

unfoldable pub find_java_dead_blocks :
    (List ℕ → String) → List ℕ → DeadMap → Option (List DeadBlock)
find_java_dead_blocks from_utf8_lossy bytes dead_funcs =
    elim (parse_classfile from_utf8_lossy bytes) [
      | none ↦ some []
      | some cf ↦ elim (bfs_live bytes cf) [
        | none ↦ none
        | some live ↦ some (
            find_dead_branches bytes cf
              (keep (λ i. not (contains (dead_indices cf dead_funcs) i)) live))
      ]
    ]

-- The first method whose code holds a range.
unfoldable pub method_of : ℕ → ℕ → List MethodInfo → ℕ → Option ℕ
method_of db_s db_e [] idx = none
method_of db_s db_e (m ∷ methods) idx =
    let rest = method_of db_s db_e methods (idx + 1) in
    elim m.code_offset [
      | none ↦ rest
      | some co ↦ if leb co db_s && leb db_e (co + m.code_length) then some idx else rest
    ]

unfoldable pub method_dead_blocks : List DeadBlock → List MethodInfo → BlockRanges → BlockRanges
method_dead_blocks [] methods result = result
method_dead_blocks (db ∷ blocks) methods result =
    method_dead_blocks blocks methods
      (elim (method_of db.addr (wrapping_add db.addr db.size) methods 0) [
        | none ↦ result
        | some idx ↦ push_range idx (db.addr, wrapping_add db.addr db.size) result
      ])

abbrev pub zeros : ℕ → List ℕ
zeros zero = []
zeros (suc n) = 0 ∷ zeros n

-- `data[s..e].fill(0x00)`, where the range is in the file.
unfoldable pub nop_fill : Intervals → List ℕ → List ℕ
nop_fill [] bytes = bytes
nop_fill ((s, e) ∷ ranges) bytes =
    nop_fill ranges
      (if leb e (length bytes) then take s bytes ++ (zeros (e - s) ++ drop e bytes) else bytes)

-- One live method: the file, in which dead code that could not be removed is filled, and the
-- method's bytes.
unfoldable pub live_method :
    List CpEntry → BlockRanges → ℕ → MethodInfo → List ℕ → Option (List ℕ × List ℕ)
live_method pool block_ranges idx m bytes =
    let raw = λ (b : List ℕ).
      let t : Option (List ℕ × List ℕ) = elim (slice b m.raw_offset (m.raw_offset + m.raw_size)) [
        | none ↦ none
        | some copied ↦ some (b, copied)
      ] in
      t in
    elim (ranges_of idx block_ranges) [
      | none ↦ raw bytes
      | some ranges ↦ elim (compact_method_code bytes m ranges pool) [
        | some compacted ↦ some (bytes, compacted)
        | none ↦ raw (nop_fill ranges bytes)
      ]
    ]

-- The loop over the live methods.
unfoldable pub method_bytes :
    List CpEntry → BlockRanges → List ℕ → ℕ → List MethodInfo → List ℕ → Option (List ℕ × List ℕ)
method_bytes pool block_ranges removed idx [] bytes = some (bytes, [])
method_bytes pool block_ranges removed idx (m ∷ methods) bytes =
    elim (if contains removed idx
      then some (bytes, [])
      else live_method pool block_ranges idx m bytes) [
        | none ↦ none
        | some (bytes', copied) ↦
            elim (method_bytes pool block_ranges removed (idx + 1) methods bytes') [
              | none ↦ none
              | some (out, rest) ↦ some (out, copied ++ rest)
            ]
      ]

-- Where the last method ends.
unfoldable pub methods_end : ℕ → List MethodInfo → ℕ
methods_end end [] = end
methods_end end (m ∷ methods) = methods_end (m.raw_offset + m.raw_size) methods

abbrev pub block_bytes : List DeadBlock → ℕ
block_bytes [] = 0
block_bytes (db ∷ blocks) = wrapping_add db.size (block_bytes blocks)

-- The new file, and the counts of methods, saved bytes, blocks and bytes in blocks.
unfoldable pub rebuild_class : List ℕ → ClassFile → List ℕ → BlockRanges → Option (List ℕ × ℕ × ℕ)
rebuild_class bytes cf removed block_ranges =
    let new_count = (length cf.methods - length removed) % 2 ^ 16 in
    let end = methods_end (cf.methods_count_offset + 2) cf.methods in
    elim (method_bytes cf.constant_pool block_ranges removed 0 cf.methods bytes) [
      | none ↦ none
      | some (filled, new_methods) ↦
          if leb cf.methods_count_offset (length filled) && leb end (length filled)
          then (let out =
                take cf.methods_count_offset filled
                ++ (new_count / 256 ∷ new_count % 256 ∷ (new_methods ++ drop end filled)) in
              some (out, length removed, length filled - length out))
          else none
    ]

unfoldable pub reassemble_java :
    (List ℕ → String) → List ℕ → DeadMap → List DeadBlock → Option (List ℕ × ℕ × ℕ × ℕ × ℕ)
reassemble_java from_utf8_lossy bytes dead dead_blocks =
    elim (parse_classfile from_utf8_lossy bytes) [
      | none ↦ some (bytes, 0, 0, 0, 0)
      | some cf ↦
          let block_ranges = method_dead_blocks dead_blocks cf.methods [] in
          if length dead == 0 && length block_ranges == 0
          then some (bytes, 0, 0, 0, 0)
          else (elim (rebuild_class bytes cf (dead_indices cf dead) block_ranges) [
            | none ↦ none
            | some (out, fc, saved) ↦
                some (out, fc, saved, length dead_blocks, block_bytes dead_blocks)
          ])
    ]

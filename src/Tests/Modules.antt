-- ===== src/Tests/Modules.antt =====
-- src/format/wasm/mod.rs on a module of two functions.
use trim.Prelude.{
  ℕ, ◌+◌, ◌-◌, true, List, [], ◌∷◌, ◌++◌, some, ◌≡◌, refl, arith, length, All, get_elem?, nat_eq,
}
use trim.Prelude.Sets.{contains}
use trim.Prelude.Worklist.Graph.{neighbours, edges}
use trim.Analysis.Cfg.{DeadBlock}
use trim.Format.Ranges.{DeadMap, insert_name, ranges_of}
use trim.Format.Wasm.Leb.{
  leb_from, read_leb128_u32, write_from, write_leb128_u32, leb_length, skip_leb128,
}
use trim.Format.Wasm.Leb.RoundTrip.{read_leb128_u32-write_leb128_u32}
use trim.Format.Wasm.Scan.{
  WasmFunc, locals_from, skip_locals, skip_block_type, instr_end, skip_wasm_instr, scan_step,
  scan_from, scan_wasm_body_dead,
}
use trim.Format.Wasm.Scan.Bounds.{IsRegion, scan_wasm_body_dead_ends}
use trim.Format.Wasm.Graph.{
  Payload, WasmModule, find_dead_functions, parse_module, parse_payloads, parse_payload, func_name,
  extract_calls, calls_of, bfs_live, enqueue, bfs_from, dead_from,
}
use trim.Format.Wasm.Graph.Dead.{offsets}
use trim.Format.Wasm.Graph.Named.{Used, find_dead_functions-Used}
use trim.Format.Wasm.Rebuild.{build_block_ranges, sized, wrap_code_section, reassemble_wasm}
use trim.Patch.Relocs.{in_dead_range}
use trim.Patch.Compact.Live.{live_where}
use trim.Format.Wasm.Rebuild.{excise_from, excise_ranges}
use trim.Format.Wasm.Rebuild.Excise.{excise_ranges-live_where}
use trim.Format.Wasm.Rebuild.Section.{Entry, IsEntry, entry_bytes}
use trim.Format.Wasm.Rebuild.Parts.{Part}
use trim.Format.Wasm.Rebuild.Whole.{wasm_file}
use trim.Format.Wasm.Rebuild.Stubbed.{reassemble_wasm-stubbed}
use trim.Format.Wasm.Rebuild.{
  parse_code_section_bounds, code_section_from, rebuild_code_section, rebuild_from, rebuild_entry,
  emit_dead_func,
}
use trim.Format.Wasm.Leb.RoundTrip.{IsLeb}

read_leb128_u32-write_leb128_u32_example :
    read_leb128_u32 ((7 ∷ []) ++ (write_leb128_u32 624485 ++ (0 ∷ []))) 1
    ≡ (624485, 1 + length (write_leb128_u32 624485))
read_leb128_u32-write_leb128_u32_example =
    read_leb128_u32-write_leb128_u32 (7 ∷ []) (0 ∷ []) 624485 (omega arith)

write_run : write_leb128_u32 624485 ≡ 0xe5 ∷ 0x8e ∷ 0x26 ∷ []
unfolding write_leb128_u32 write_from
write_run = refl

abbrev func : WasmFunc
func = record { index = 0; name = "f"; body_offset = 2; body_size = 6 }

-- No locals; return, two no-ops and a drop, end.
abbrev body : List ℕ
body = 9 ∷ 9 ∷ 0x00 ∷ 0x0f ∷ 0x01 ∷ 0x01 ∷ 0x1a ∷ 0x0b ∷ []

scan_wasm_body_dead_ends_example :
    (blocks : List DeadBlock) × (scan_wasm_body_dead body func ≡ some blocks)
    × All (IsRegion func func.body_size) blocks
scan_wasm_body_dead_ends_example = scan_wasm_body_dead_ends body func

scan_run :
    scan_wasm_body_dead body func ≡ some (record { func_name = "f"; addr = 4; size = 3 } ∷ [])
unfolding scan_wasm_body_dead scan_from scan_step skip_locals locals_from read_leb128_u32 leb_from
    skip_wasm_instr instr_end
scan_run = refl

-- A return inside of a block: what follows the block's end is live, and is in the region.
abbrev nested : List ℕ
nested = 9 ∷ 9 ∷ 0x00 ∷ 0x02 ∷ 0x40 ∷ 0x0f ∷ 0x0b ∷ 0x41 ∷ 0x05 ∷ 0x1a ∷ 0x0b ∷ []

nested_run :
    scan_wasm_body_dead nested record { index = 0; name = "f"; body_offset = 2; body_size = 9 }
    ≡ some (record { func_name = "f"; addr = 6; size = 4 } ∷ [])
unfolding scan_wasm_body_dead scan_from scan_step skip_locals locals_from read_leb128_u32 leb_from
    skip_wasm_instr instr_end skip_block_type skip_leb128 leb_length
nested_run = refl

abbrev module' : WasmModule
module' = record {
  functions =
      record { index = 1; name = "f"; body_offset = 15; body_size = 3 }
      ∷ record { index = 2; name = "g"; body_offset = 19; body_size = 7 }
      ∷ [];
  roots = 1 ∷ [];
  call_graph = (1, 0 ∷ []) ∷ (2, 1 ∷ []) ∷ [];
}

-- The module's payloads: an import, an export of the first body, and two bodies, of which the second
-- calls the first.
abbrev payloads : List Payload
payloads =
    Payload.imports (some true ∷ [])
    ∷ Payload.exports (some (some (1, "f")) ∷ [])
    ∷ Payload.code_entry 15 18 (some (some (some 0) ∷ []))
    ∷ Payload.code_entry 19 26 (some (some (some 1) ∷ []))
    ∷ []

parse_run : parse_module (λ n. "g") payloads ≡ some module'
unfolding parse_module parse_payloads parse_payload func_name extract_calls calls_of
parse_run = refl

dead_run : find_dead_functions module' ≡ some (("g", (19, 7)) ∷ [])
unfolding find_dead_functions bfs_live enqueue bfs_from dead_from neighbours edges insert_name
dead_run = refl

find_dead_functions-Used_example :
    (dead : DeadMap) × (find_dead_functions module' ≡ some dead)
    × ((off : ℕ)
        → contains (offsets dead) off ≡ true
        → (k : ℕ) × (f : WasmFunc) × (get_elem? module'.functions k ≡ some f)
          × (f.body_offset ≡ off)
          × ¬ Used payloads module' f.index)
find_dead_functions-Used_example = find_dead_functions-Used (λ n. "g") payloads module' parse_run

abbrev version : List ℕ
version = 1 ∷ 0 ∷ 0 ∷ 0 ∷ []

abbrev parts : List Part
parts = (1, 1 ∷ [], 0x60 ∷ []) ∷ []

abbrev entries : List Entry
entries = (3 ∷ [], 0 ∷ 0x01 ∷ 0x0b ∷ []) ∷ (7 ∷ [], 0 ∷ 1 ∷ 1 ∷ 1 ∷ 1 ∷ 1 ∷ 0x0b ∷ []) ∷ []

abbrev file : List ℕ
file = wasm_file version parts (13 ∷ []) (2 ∷ []) entries (0 ∷ 0 ∷ [])

-- The second function is cut.
abbrev cut : List Entry
cut = (3 ∷ [], 0 ∷ 0x01 ∷ 0x0b ∷ []) ∷ (3 ∷ [], 0 ∷ 0 ∷ 0x0b ∷ []) ∷ []

reassemble_run :
    reassemble_wasm file (("g", (19, 7)) ∷ []) []
    ≡ some (wasm_file version parts (9 ∷ []) (2 ∷ []) cut (0 ∷ 0 ∷ []), 1, 4, 0, 0)
unfolding reassemble_wasm parse_code_section_bounds code_section_from build_block_ranges
    rebuild_code_section rebuild_from rebuild_entry emit_dead_func wrap_code_section sized
    write_leb128_u32 write_from read_leb128_u32 leb_from entry_bytes ranges_of
reassemble_run = refl

reassemble_wasm-stubbed_example :
    (h' : List ℕ) × (n' : List ℕ) × IsLeb h' (length (n' ++ entry_bytes cut))
    × IsLeb n' 2
    × All IsEntry cut
    × (reassemble_wasm file (("g", (19, 7)) ∷ []) []
        ≡ some (
          wasm_file version parts h' n' cut (0 ∷ 0 ∷ []),
          1,
          15 - (1 + length h' + length (n' ++ entry_bytes cut)),
          0,
          0,
        ))
unfolding leb_from entry_bytes
reassemble_wasm-stubbed_example =
    reassemble_wasm-stubbed version (13 ∷ []) (2 ∷ []) (0 ∷ 0 ∷ []) parts entries
      (("g", (19, 7)) ∷ []) refl ((refl, λ rest. refl), tt) (λ rest. refl) (λ rest. refl)
      (λ rest. refl, (λ rest. refl, tt)) (omega arith) (omega arith)

excise_ranges-live_where_example :
    excise_ranges (1 ∷ 2 ∷ 3 ∷ 4 ∷ 5 ∷ []) 10 ((11, 13) ∷ [])
    ≡ live_where (λ x. in_dead_range (10 + x) ((11, 13) ∷ [])) (1 ∷ 2 ∷ 3 ∷ 4 ∷ 5 ∷ [])
excise_ranges-live_where_example =
    excise_ranges-live_where (1 ∷ 2 ∷ 3 ∷ 4 ∷ 5 ∷ []) 10 ((11, 13) ∷ [])
      (omega arith, omega arith, omega arith)

excise_run : excise_ranges (1 ∷ 2 ∷ 3 ∷ 4 ∷ 5 ∷ []) 10 ((11, 13) ∷ []) ≡ 1 ∷ 4 ∷ 5 ∷ []
unfolding excise_ranges excise_from
excise_run = refl

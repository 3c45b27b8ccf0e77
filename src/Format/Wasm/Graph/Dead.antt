-- ===== src/Format/Wasm/Graph/Dead.antt =====
-- src/format/wasm/mod.rs: the functions that `find_dead_functions` reports.
use mathlib.Core.Bool.{true≢false}
use trim.Prelude.{
  ℕ, suc, true, false, List, [], ◌∷◌, map, some, ◌≡◌, refl, sym, ◌∙◌, arith, ◌==◌, ◌||◌, String,
  str_eq, nat_eq, get_elem?, Bool-cases, inl, inr,
}
use trim.Prelude.Sets.{contains}
use trim.Prelude.Worklist.Correct.{Reach}
use trim.Prelude.Worklist.Graph.{neighbours}
use trim.Format.Ranges.{DeadMap, insert_name}
use trim.Format.Wasm.Scan.{WasmFunc}
use trim.Format.Wasm.Graph.{WasmModule, dead_from, find_dead_functions}
use trim.Format.Wasm.Graph.Search.{bfs_live_decides}

abbrev pub offsets : DeadMap → List ℕ
offsets dead = map (λ (d : String × (ℕ × ℕ)). d.1.0) dead

offsets-insert_name :
    (name : String) (x : ℕ × ℕ) (dead : DeadMap) (off : ℕ)
    → contains (offsets (insert_name name x dead)) off ≡ true
    → (x.0 == off || contains (offsets dead) off) ≡ true
unfolding insert_name
offsets-insert_name name x [] off h = ground arith
offsets-insert_name name x ((k, y) ∷ dead) off h = elim (Bool-cases (str_eq k name)) [
  | inl same ↦ let h' = rw (insert_name, same) at h in ground arith
  | inr other ↦
      let h' = rw (insert_name, other) at h in
      elim (Bool-cases (y.0 == off)) [
        | inl here ↦ ground arith
        | inr later ↦
            let rest = offsets-insert_name name x dead off (rw later at h') in ground (arith, rest)
      ]
]

module _ (live : List ℕ) where
  -- A function whose body starts at a place, and that is not live.
  abbrev DeadAt : List WasmFunc → ℕ → Type 0
  DeadAt functions off =
      (k : ℕ) × (f : WasmFunc) × (get_elem? functions k ≡ some f)
      × (f.body_offset ≡ off)
      × (contains live f.index ≡ false)

  later :
      (f : WasmFunc) (functions : List WasmFunc) (off : ℕ)
      → DeadAt functions off
      → DeadAt (f ∷ functions) off
  later f functions off (k, g, at, start, dead) = (suc k, g, at, start, dead)

  dead_from-DeadAt :
      (functions all : List WasmFunc) (dead : DeadMap)
      → ((off : ℕ) → DeadAt functions off → DeadAt all off)
      → ((off : ℕ) → contains (offsets dead) off ≡ true → DeadAt all off)
      → (off : ℕ) → contains (offsets (dead_from live functions dead)) off ≡ true
      → DeadAt all off
  unfolding dead_from
  dead_from-DeadAt [] all dead widen known off h = known off h
  dead_from-DeadAt (f ∷ functions) all dead widen known off h =
      let widen' : (off : ℕ) → DeadAt functions off → DeadAt all off =
        λ off d. widen off (later f functions off d) in
      elim (Bool-cases (contains live f.index)) [
        | inl kept ↦
            dead_from-DeadAt functions all dead widen' known off (rw (dead_from, kept) at h)
        | inr gone ↦
            dead_from-DeadAt functions all (insert_name f.name (f.body_offset, f.body_size) dead)
              widen'
              (λ off' h'. elim (Bool-cases (f.body_offset == off')) [
                | inl here ↦ widen off' (0, f, refl, ground arith, gone)
                | inr other ↦
                    let old =
                      offsets-insert_name f.name (f.body_offset, f.body_size) dead off' h' in
                    known off' (rw other at old)
              ])
              off (rw (dead_from, gone) at h)
      ]

-- The search for dead functions ends on every module, and each place that it gives is where the body of
-- a function starts that no chain of calls reaches from the exports, the start function and the
-- elements of tables.
pub find_dead_functions-unreached :
    (m : WasmModule)
    → (dead : DeadMap) × (find_dead_functions m ≡ some dead)
      × ((off : ℕ)
          → contains (offsets dead) off ≡ true
          → (k : ℕ) × (f : WasmFunc) × (get_elem? m.functions k ≡ some f)
            × (f.body_offset ≡ off)
            × (Reach (neighbours m.call_graph) m.roots f.index → ⊥))
unfolding find_dead_functions
find_dead_functions-unreached m =
    let (live, ends, exact) = bfs_live_decides m in
    let dead = dead_from live m.functions [] in
    (
      dead,
      rw (find_dead_functions, ends) refl,
      λ off h.
          let (k, f, at, start, gone) =
            dead_from-DeadAt live m.functions m.functions [] (λ off' d. d) (λ off' h'. absurd cc)
              off h in
          (k, f, at, start, λ walk. true≢false (sym ((exact f.index).1 ∣ walk ∣₁) ∙ gone)),
    )

-- ===== src/Analysis/Cfg/Region.antt =====
-- src/analysis/cfg.rs: the dead region behind a call that never returns.
pub mod Behind
use trim.Prelude.{
  ℕ, ◌+◌, ◌≤◌, ◌<◌, ◌^◌, false, List, [], ◌∷◌, some, leb, ◌≡◌, refl, arith, Bool-cases, inl, inr,
  All, sym, nat_eq, min, subst,
}
use trim.Prelude.Sets.{contains}
use trim.Types.{DecodedInstr}
use trim.Analysis.Cfg.{find_dead_end, scan_dead_region}

-- Instructions in address order from `from` on, none overlapping the next.
abbrev pub InOrder : ℕ → List DecodedInstr → Type 0
InOrder from [] = Unit
InOrder from (i ∷ rest) = (from ≤ i.addr) × InOrder (i.addr + i.len) rest

-- An instruction that starts below `stop` is not the target of a branch.
abbrev pub Untargeted : List ℕ → ℕ → DecodedInstr → Type 0
Untargeted targets stop i = i.addr < stop → contains targets i.addr ≡ false

All-Untargeted :
    (targets : List ℕ) (stop from : ℕ) (l : List DecodedInstr)
    → InOrder from l
    → stop ≤ from
    → All (Untargeted targets stop) l
All-Untargeted targets stop from [] o h = tt
All-Untargeted targets stop from (i ∷ l) o h =
    (λ lt. absurd (omega arith), All-Untargeted targets stop (i.addr + i.len) l o.1 (omega arith))

-- A place to stop: inside the function, and with no branch target before it.
abbrev EndsAt : ℕ → ℕ → List ℕ → List DecodedInstr → ℕ → Type 0
EndsAt from func_end targets l stop =
    (min from func_end ≤ stop) × (stop ≤ func_end) × All (Untargeted targets stop) l

find_dead_end_lem :
    (from func_end : ℕ) (targets : List ℕ) (l : List DecodedInstr)
    → InOrder from l
    → EndsAt from func_end targets l (find_dead_end l func_end targets)
unfolding find_dead_end
find_dead_end_lem from func_end targets [] o = (omega arith, omega arith, tt)
find_dead_end_lem from func_end targets (i ∷ l) o =
    let ends = EndsAt from func_end targets (i ∷ l) in
    let result = find_dead_end (i ∷ l) func_end targets in
    elim (Bool-cases (leb func_end i.addr)) [
      | inl past ↦
          let e : func_end ≡ result = rw (past, find_dead_end) refl in
          subst ends e (
            omega arith,
            omega arith,
            (
              λ lt. absurd (ground arith),
              All-Untargeted targets func_end (i.addr + i.len) l o.1 (ground arith),
            ),
          )
      | inr within ↦ elim (Bool-cases (contains targets i.addr)) [
        | inl hit ↦
            let e : i.addr ≡ result = rw (within, find_dead_end) (rw (hit, find_dead_end) refl) in
            subst ends e (
              omega arith,
              ground arith,
              (
                λ lt. absurd (omega arith),
                All-Untargeted targets i.addr (i.addr + i.len) l o.1 (omega arith),
              ),
            )
        | inr miss ↦
            let e : find_dead_end l func_end targets ≡ result =
              rw (within, find_dead_end) (rw (miss, find_dead_end) refl) in
            let (low, high, rest) = find_dead_end_lem (i.addr + i.len) func_end targets l o.1 in
            subst ends e (ground arith, high, ((λ lt. miss), rest))
      ]
    ]

-- A region that the scan reports starts right behind the instruction, has at least 2 bytes, ends at
-- or before `func_end`, and none of the instructions in it is in the list of targets.
pub scan_dead_region_lem :
    (start : DecodedInstr) (later : List DecodedInstr) (func_end : ℕ) (targets : List ℕ) (a n : ℕ)
    → start.addr + start.len < 2 ^ 64
    → func_end < 2 ^ 64
    → InOrder (start.addr + start.len) later
    → scan_dead_region start later func_end targets ≡ some (a, n)
    → (a ≡ start.addr + start.len)
      × (2 ≤ n)
      × (a + n ≤ func_end)
      × All (Untargeted targets (a + n)) later
unfolding scan_dead_region
scan_dead_region_lem start later func_end targets a n fits top order h =
    let stop = find_dead_end later func_end targets in
    let (low, high, clear) =
      find_dead_end_lem (start.addr + start.len) func_end targets later order in
    let at_a : a ≡ start.addr + start.len = ground arith in
    let whole : a + n ≡ stop = ground arith in
    (
      at_a,
      ground arith,
      omega arith,
      subst (λ (s : ℕ). All (Untargeted targets s) later) (sym whole) clear,
    )

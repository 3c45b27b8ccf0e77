-- ===== src/Analysis/Cfg/Region/Behind.antt =====
-- src/analysis/cfg.rs: the dead regions of a function, `find_dead_in_func`.
use trim.Prelude.{ℕ, ◌+◌, ◌≤◌, ◌<◌, true, false, List, [], ◌∷◌, ◌++◌, String, ◌≡◌, All, nat_eq}
use trim.Prelude.Sets.{contains}
use trim.Types.{DecodedInstr, FuncMap, FlowType}
use trim.Analysis.Cfg.{
  DeadBlock, ImportNames, collect_branch_targets, is_noreturn_call, find_post_noreturn_dead,
}

-- None of these instructions, the calls aside, has `t` among its targets.
abbrev pub NoneLeadsTo : List DecodedInstr → ℕ → Type 0
NoneLeadsTo func t = All (λ k. k.is_call ≡ false → contains k.targets t ≡ false) func

-- An instruction that starts below `stop` is not the target of a branch of the function.
abbrev pub Spared : List DecodedInstr → ℕ → DecodedInstr → Type 0
Spared func stop j = j.addr < stop → NoneLeadsTo func j.addr

-- A region of a function that ends at `func_end`: behind a call with a target that is named as never
-- returning, and with no target of a branch in it.
abbrev pub IsBehindCall : List DecodedInstr → FuncMap → ImportNames → ℕ → DeadBlock → Type 0
IsBehindCall func funcs import_names func_end b =
    (before : List DecodedInstr) × (i : DecodedInstr) × (later : List DecodedInstr) × (func
      ≡ before ++ (i ∷ later))
    × (i.flow ≡ FlowType.call)
    × (is_noreturn_call i funcs import_names ≡ true)
    × (b.addr ≡ i.addr + i.len)
    × (2 ≤ b.size)
    × (b.addr + b.size ≤ func_end)
    × All (Spared func (b.addr + b.size)) later

-- The body of `find_dead_in_func`.
abbrev reported : String → ℕ → ℕ → FuncMap → ImportNames → List DecodedInstr → List DeadBlock
reported name start end funcs import_names func = elim func [
  | [] ↦ []
  | i ∷ rest ↦
      find_post_noreturn_dead name (i ∷ rest) funcs import_names
        (collect_branch_targets (i ∷ rest) start end) end
]

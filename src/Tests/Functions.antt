-- ===== src/Tests/Functions.antt =====
-- src/analysis/reachability.rs, roots.rs and lattice.rs on a program of four functions: `main` calls
-- `run`, which shares its address with `alias`, and nothing calls `spare`.
use trim.Prelude.Worklist.Graph.{neighbours, edges}
use trim.Prelude.{ℕ, ◌≤◌, true, false, List, [], ◌∷◌, some, String, ◌≡◌, refl, ◌↔◌, string_eq}
use trim.Prelude.Sets.{contains}
use trim.Prelude.Worklist.{worklist}
use trim.Types.{FuncMap, RefGraph}
use trim.Analysis.Reachability.{
  bfs, compute_live_set, live_loop, add_aliases, live_addrs, func_addr, find_dead, determine_roots,
  root_names, is_root_func,
}
use trim.Analysis.Reachability.Live.{MustLive}
use trim.Analysis.Reachability.Fixpoint.{compute_live_set_decides}
use trim.Analysis.Reachability.Dead.{
  has_dead, has_entry, is_kept, find_dead_decides, kept_never_dead,
}
use trim.Analysis.Lattice.{Value, meet, BinOp, CondCode, eval_binop, eval_cmp}
use trim.Analysis.Lattice.Order.{Le, meet_least, eval_mono}

abbrev funcs : FuncMap
funcs =
    ("main", record { addr = 100; size = 16; is_global = true })
    ∷ ("run", record { addr = 200; size = 16; is_global = false })
    ∷ ("alias", record { addr = 200; size = 16; is_global = false })
    ∷ ("spare", record { addr = 300; size = 8; is_global = false })
    ∷ []

abbrev graph : RefGraph
graph = ("main", "run" ∷ []) ∷ ("spare", "run" ∷ []) ∷ []

compute_live_set_decides_example :
    (live : List String) × (compute_live_set ("main" ∷ []) graph funcs ≡ some live)
    × ((v : String) → (contains live v ≡ true) ↔ ∥ MustLive ("main" ∷ []) graph funcs v ∥₁)
compute_live_set_decides_example = compute_live_set_decides ("main" ∷ []) graph funcs

abbrev live : List String
live = "main" ∷ "run" ∷ "alias" ∷ []

live_run : compute_live_set ("main" ∷ []) graph funcs ≡ some live
unfolding compute_live_set live_loop add_aliases live_addrs func_addr bfs neighbours edges worklist
live_run = refl

roots_run : determine_roots funcs [] [] ≡ "main" ∷ []
unfolding determine_roots root_names is_root_func
roots_run = refl

kept_run : compute_live_set (determine_roots funcs [] []) graph funcs ≡ some live
kept_run = rw roots_run live_run

main_kept : is_kept funcs [] [] "main" ≡ true
unfolding is_root_func
main_kept = refl

dead_run : find_dead funcs live ≡ ("spare", 300, 8) ∷ []
unfolding find_dead
dead_run = refl

find_dead_decides_example : (has_dead (find_dead funcs live) "spare" 300 8 ≡ true) ↔ (
    (has_entry funcs "spare" 300 8 ≡ true)
    × (4 ≤ 8)
    × (¬ MustLive ("main" ∷ []) graph funcs "spare"))
find_dead_decides_example = find_dead_decides ("main" ∷ []) graph funcs live "spare" 300 8 live_run

kept_never_dead_example : has_dead (find_dead funcs live) "main" 100 16 ≡ false
kept_never_dead_example = kept_never_dead funcs [] [] graph live "main" 100 16 kept_run main_kept

meet_least_example :
    Le (Value.const 1) (meet (Value.const 1) (Value.const 2))
    × Le (Value.const 2) (meet (Value.const 1) (Value.const 2))
    × ((u : Value)
        → Le (Value.const 1) u
        → Le (Value.const 2) u
        → Le (meet (Value.const 1) (Value.const 2)) u)
meet_least_example = meet_least (Value.const 1) (Value.const 2)

eval_mono_example :
    Le
      (eval_binop BinOp.add (Value.const 1) (Value.const 2))
      (eval_binop BinOp.add (Value.const 1) Value.top)
    × Le
        (eval_cmp CondCode.lt (Value.const 1) (Value.const 2))
        (eval_cmp CondCode.lt (Value.const 1) Value.top)
eval_mono_example =
    eval_mono BinOp.add CondCode.lt (Value.const 1) (Value.const 2) (Value.const 1) Value.top refl
      tt

-- The pattern of the signed number -1.
abbrev minus_one : ℕ
minus_one = 0xffff_ffff_ffff_ffff

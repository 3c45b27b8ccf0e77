-- ===== src/Prelude/Worklist.antt =====
-- The breadth-first search that the analyses share: pop a node, skip it if it was seen, else mark
-- it and queue those of its successors that are not marked. (analysis/reachability.rs: `bfs`;
-- analysis/cfg.rs: `bfs_reachable`.)
pub mod Correct
pub mod Prefix
pub mod Graph
use Prim.Native.Nat.{ℕ, zero, suc}
use mathlib.Core.Bool.{Bool, true, false, not}
use mathlib.Core.Option.{Option, none, some}
use mathlib.Core.List.{List, [], ◌∷◌, ◌++◌}
use trim.Prelude.Tests.{Eq}
use trim.Prelude.Lists.{keep}
use trim.Prelude.Sets.{contains}

module _ {ℓ} {A : Type ℓ} ⦃e : Eq A⦄ (next : A → List A) where
  -- The successors that are queued once `name` is marked.
  abbrev pub fresh : List A → A → List A
  fresh live name = keep (λ c. not (contains live c)) (next name)

  -- `none` means that the fuel ran out.
  unfoldable pub worklist : ℕ → List A → List A → Option (List A)
  worklist zero live queue = elim queue [ [] ↦ some live | _ ∷ _ ↦ none ]
  worklist (suc fuel) live queue = elim queue [
    | [] ↦ some live
    | name ∷ rest ↦ elim (contains live name) [
      | true ↦ worklist fuel live rest
      | false ↦ worklist fuel (live ++ name ∷ []) (rest ++ fresh (live ++ name ∷ []) name)
    ]
  ]

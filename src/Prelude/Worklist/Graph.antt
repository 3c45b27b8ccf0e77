-- ===== src/Prelude/Worklist/Graph.antt =====
-- The search on a graph that is given as lists of successors. A node that has no list has no
-- successor, as the loop over the successors of a missing key is the loop over none.
use Prim.Native.Nat.{ℕ, ◌+◌, ◌≤◌}
use mathlib.Core.Path.{◌≡◌, refl, ap}
use mathlib.Core.Logic.{◌↔◌, inl, inr}
use mathlib.Core.Bool.{true, false}
use mathlib.Core.Option.{Option, some}
use mathlib.Core.List.{List, [], ◌∷◌, ◌++◌}
use native.Mathlib.Omega.{arith}
use trim.Prelude.Tests.{Eq, Bool-cases, if◌then◌else◌}
use trim.Prelude.Lists.{length}
use trim.Prelude.Sets.{contains, contains-append}
use trim.Prelude.Worklist.{worklist}
use trim.Prelude.Worklist.Correct.{Reach, worklist_correct, worklist_ends}

module _ {ℓ} {A : Type ℓ} ⦃e : Eq A⦄ where
  unfoldable pub neighbours : List (A × List A) → A → List A
  neighbours [] x = []
  neighbours ((k, xs) ∷ graph) x = elim (e.beq k x) [ true ↦ xs | false ↦ neighbours graph x ]

  -- The number of edges, which bounds how often a search pops its queue.
  unfoldable pub edges : List (A × List A) → ℕ
  edges [] = 0
  edges ((k, xs) ∷ graph) = length xs + edges graph

  -- `none` would mean that the fuel was too small.
  unfoldable pub search_from : List A → List (A × List A) → Option (List A)
  search_from roots graph = worklist (neighbours graph) (edges graph + length roots) [] roots

  -- The edges out of nodes that are not marked yet.
  weight : List (A × List A) → List A → ℕ
  weight [] live = 0
  weight ((k, xs) ∷ graph) live = (if contains live k then 0 else length xs) + weight graph live

  weight_mono :
      (graph : List (A × List A)) (live : List A) (x : A)
      → weight graph (live ++ x ∷ []) ≤ weight graph live
  unfolding weight
  weight_mono [] live x = omega arith
  weight_mono ((k, xs) ∷ graph) live x =
      ground (arith, weight_mono graph live x, contains-append live (x ∷ []) k)

  weight_pays :
      (graph : List (A × List A)) (live : List A) (x : A)
      → contains live x ≡ false
      → weight graph (live ++ x ∷ []) + length (neighbours graph x) ≤ weight graph live
  unfolding weight neighbours
  weight_pays [] live x h = omega arith
  weight_pays ((k, xs) ∷ graph) live x h = elim (Bool-cases (e.beq k x)) [
    | inl same ↦
        let eq = (e.beq_iff k x).0 same in
        ground
          (arith, weight_mono graph live x, contains-append live (x ∷ []) k, ap (contains live) eq)
    | inr other ↦ ground (arith, weight_pays graph live x h, contains-append live (x ∷ []) k)
  ]

  weight_start : (graph : List (A × List A)) → weight graph [] ≡ edges graph
  unfolding weight edges
  weight_start [] = refl
  weight_start ((k, xs) ∷ graph) = ap (λ (n : ℕ). length xs + n) (weight_start graph)

  -- The search ends on every graph, and holds exactly the nodes that a walk reaches.
  pub search_from_correct :
      (roots : List A) (graph : List (A × List A))
      → (live : List A) × (search_from roots graph ≡ some live)
        × ((v : A) → (contains live v ≡ true) ↔ ∥ Reach (neighbours graph) roots v ∥₁)
  unfolding search_from
  search_from_correct roots graph =
      let fuel = edges graph + length roots in
      let (live, ends) =
        worklist_ends (neighbours graph) (weight graph) (weight_pays graph) fuel [] roots
          (omega (arith, weight_start graph)) in
      (live, ends, worklist_correct (neighbours graph) roots fuel live ends)

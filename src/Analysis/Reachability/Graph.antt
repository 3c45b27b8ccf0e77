-- ===== src/Analysis/Reachability/Graph.antt =====
-- src/analysis/reachability.rs: `bfs` ends, and finds exactly the names that the graph reaches.
use trim.Prelude.{true, List, some, String, ◌≡◌, ◌↔◌, string_eq}
use trim.Prelude.Sets.{contains}
use trim.Prelude.Worklist.Correct.{Reach}
use trim.Prelude.Worklist.Graph.{search_from, search_from_correct}
use trim.Types.{RefGraph}
use trim.Analysis.Reachability.{callees, bfs}

-- A walk along the graph from the roots.
abbrev pub Reaches : RefGraph → List String → String → Type 0
Reaches graph roots v = Reach (callees graph) roots v

pub bfs_ends :
    (roots : List String) (graph : RefGraph) → (live : List String) × (bfs roots graph ≡ some live)
unfolding bfs search_from
bfs_ends roots graph = let (live, ends, _) = search_from_correct roots graph in (live, ends)

-- `bfs` ends on every graph, cyclic ones included, and its result holds exactly the names that some
-- walk along the graph reaches from the roots.
pub bfs_decides :
    (roots : List String) (graph : RefGraph)
    → (live : List String) × (bfs roots graph ≡ some live)
      × ((v : String) → (contains live v ≡ true) ↔ ∥ Reaches graph roots v ∥₁)
unfolding bfs search_from
bfs_decides roots graph = search_from_correct roots graph

-- ===== src/Format/Wasm/Graph/Search.antt =====
-- src/format/wasm/mod.rs: `bfs_live` ends, and finds exactly the functions that calls reach.
use mathlib.Core.Logic.{∥∥₁_elim}
use mathlib.Core.Bool.{So-prop}
use trim.Prelude.{
  ℕ, zero, suc, ◌+◌, ◌≤◌, true, List, [], ◌∷◌, ◌++◌, some, ◌≡◌, ◌↔◌, refl, sym, subst, arith, ◌==◌,
  ◌||◌, nat_eq, length, length-append, Bool-cases, inl, inr,
}
use trim.Prelude.Sets.{contains, contains-append, beq_refl}
use trim.Prelude.Worklist.Correct.{Reach, root, step}
use trim.Prelude.Worklist.Graph.{neighbours, edges}
use trim.Format.Wasm.Graph.{WasmModule, enqueue, bfs_from, bfs_live}
use trim.Format.Wasm.Graph.Queue.{
  enqueue-visited, enqueue-queue, unmarked, unmarked-le, enqueue_pays,
}

-- Every function that some list of callees names.
unfoldable named : List (ℕ × List ℕ) → List ℕ
named [] = []
named ((k, xs) ∷ graph) = xs ++ named graph

length-named : (graph : List (ℕ × List ℕ)) → length (named graph) ≡ edges graph
unfolding named edges
length-named [] = refl
length-named ((k, xs) ∷ graph) = omega (arith, length-append xs (named graph), length-named graph)

named-neighbours :
    (graph : List (ℕ × List ℕ)) (x v : ℕ)
    → contains (neighbours graph x) v ≡ true
    → contains (named graph) v ≡ true
unfolding named neighbours
named-neighbours [] x v h = absurd cc
named-neighbours ((k, xs) ∷ graph) x v h = elim (Bool-cases (k == x)) [
  | inl same ↦ ground (arith, contains-append xs (named graph) v, rw (neighbours, same) at h)
  | inr other ↦ ground (
    arith,
    contains-append xs (named graph) v,
    named-neighbours graph x v (rw (neighbours, other) at h),
  )
]

module _ (roots : List ℕ) (graph : List (ℕ × List ℕ)) where
  abbrev next : ℕ → List ℕ
  next = neighbours graph

  record Inv (visited queue : List ℕ) : Type 0 where
    reached : (v : ℕ) → contains visited v ≡ true → Reach next roots v
    queued : (v : ℕ) → contains queue v ≡ true → contains visited v ≡ true
    started : (v : ℕ) → contains roots v ≡ true → contains visited v ≡ true
    closed :
        (u v : ℕ)
        → contains visited u ≡ true
        → contains (next u) v ≡ true
        → (contains visited v || contains queue u) ≡ true

  Inv-start : let r = enqueue roots ([], []) in Inv r.0 r.1
  Inv-start = record {
    reached = λ v h. root (ground (arith, enqueue-visited roots [] [] v));
    queued = λ v h. ground (arith, enqueue-visited roots [] [] v, enqueue-queue roots [] [] v);
    started = λ v h. ground (arith, enqueue-visited roots [] [] v);
    closed =
        λ u v h edge. ground (arith, enqueue-visited roots [] [] u, enqueue-queue roots [] [] u);
  }

  Inv-pop :
      (visited rest : List ℕ) (idx : ℕ)
      → Inv visited (idx ∷ rest)
      → let r = enqueue (next idx) (visited, rest) in Inv r.0 r.1
  Inv-pop visited rest idx inv =
      let seen : contains visited idx ≡ true = inv.queued idx (ground (arith, beq_refl idx)) in
      let marks = enqueue-visited (next idx) visited rest in
      let queues = enqueue-queue (next idx) visited rest in
      record {
        reached = λ v h. elim (Bool-cases (contains visited v)) [
          | inl old ↦ inv.reached v old
          | inr new ↦ step (inv.reached idx seen) (ground (arith, marks v))
        ];
        queued = λ v h. ground (arith, marks v, queues v, inv.queued v);
        started = λ v h. ground (arith, marks v, inv.started v h);
        closed = λ u v h edge. elim (Bool-cases (contains visited u)) [
          | inl old ↦ elim (Bool-cases (idx == u)) [
            | inl same ↦
                let e : idx ≡ u = ground arith in
                let edge' : contains (next idx) v ≡ true =
                  subst (λ (x : ℕ). contains (next x) v ≡ true) (sym e) edge in
                ground (arith, marks v)
            | inr other ↦ ground (arith, marks v, queues u, inv.closed u v old edge)
          ]
          | inr new ↦ ground (arith, marks u, queues u)
        ];
      }

  bfs_from-Inv :
      (fuel : ℕ) (visited queue : List ℕ)
      → Inv visited queue
      → length queue + unmarked visited (roots ++ named graph) ≤ fuel
      → (out : List ℕ) × (bfs_from next fuel visited queue ≡ some out) × Inv out []
  unfolding bfs_from
  bfs_from-Inv zero visited [] inv h = (visited, refl, inv)
  bfs_from-Inv zero visited (idx ∷ rest) inv h = absurd (omega arith)
  bfs_from-Inv (suc fuel) visited [] inv h = (visited, refl, inv)
  bfs_from-Inv (suc fuel) visited (idx ∷ rest) inv h =
      let all = roots ++ named graph in
      let r = enqueue (next idx) (visited, rest) in
      let pays = enqueue_pays all (next idx) visited rest (λ v e.
        ground (arith, named-neighbours graph idx v e, contains-append roots (named graph) v)) in
      bfs_from-Inv fuel r.0 r.1 (Inv-pop visited rest idx inv) (omega (arith, pays))

  complete : (out : List ℕ) → Inv out [] → {v : ℕ} → Reach next roots v → contains out v ≡ true
  complete out inv (root {v} h) = inv.started v h
  complete out inv (step {u} {v} r edge) = ground (arith, inv.closed u v (complete out inv r) edge)

-- `bfs_live` ends on every module, and its result holds exactly the functions that a chain of calls
-- reaches from the exports, the start function and the elements of tables.
pub bfs_live_decides :
    (m : WasmModule)
    → (live : List ℕ) × (bfs_live m ≡ some live)
      × ((v : ℕ) → (contains live v ≡ true) ↔ ∥ Reach (neighbours m.call_graph) m.roots v ∥₁)
unfolding bfs_live
bfs_live_decides m =
    let all = m.roots ++ named m.call_graph in
    let start = enqueue m.roots ([], []) in
    let pays =
      enqueue_pays all m.roots [] []
        (λ v e. ground (arith, contains-append m.roots (named m.call_graph) v)) in
    let (live, ends, inv) =
      bfs_from-Inv m.roots m.call_graph (length m.roots + edges m.call_graph) start.0 start.1
        (Inv-start m.roots m.call_graph)
        (omega (
          arith,
          pays,
          unmarked-le [] all,
          length-append m.roots (named m.call_graph),
          length-named m.call_graph,
        )) in
    (
      live,
      ends,
      λ v. (
        λ h. ∣ inv.reached v h ∣₁,
        λ r. ∥∥₁_elim r (So-prop _) (complete m.roots m.call_graph live inv),
      ),
    )

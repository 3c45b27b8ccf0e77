-- ===== src/Analysis/Reachability/Fixpoint.antt =====
-- src/analysis/reachability.rs: `compute_live_set` ends, and computes the least set that holds the
-- roots and is closed under the graph and under functions that share an address.
use mathlib.Core.List.{append-nil}
use mathlib.Core.Logic.{∥∥₁_elim}
use mathlib.Core.Bool.{So-prop}
use trim.Prelude.Worklist.Graph.{edges}
use trim.Prelude.{
  ℕ, zero, suc, ◌+◌, ◌<◌, true, List, [], ◌∷◌, ◌++◌, some, String, ◌≡◌, refl, arith, ◌==◌, length,
  length-append, ◌↔◌, Bool-cases, inl, inr, string_eq, nat_eq, ap, ◌∙◌, sym, subst,
}
use trim.Prelude.Sets.{contains}
use trim.Prelude.Worklist.Correct.{root, step, worklist_sound, worklist_complete}
use trim.Prelude.Worklist.Prefix.{Fresh, worklist-Fresh}
use trim.Types.{FuncMap, RefGraph}
use trim.Analysis.Reachability.{callees, bfs, func_addr, live_addrs, live_loop, compute_live_set}
use trim.Analysis.Reachability.Graph.{bfs_ends}
use trim.Analysis.Reachability.Aliases.{
  has_func, contains-live_addrs, add_aliases-adds, unlisted, unlisted-le-length,
}
use trim.Analysis.Reachability.Live.{
  MustLive, seed, refer, share, aliased, Inv, Round, reached_sound, round_lem, Round-falls,
}

module _ (roots : List String) (graph : RefGraph) (funcs : FuncMap) where
  -- A round that keeps the size: no live address has a function that is not live.
  record Settled (out : List String) : Type 0 where
    inv : Inv roots graph funcs out
    shared :
        (u v : String) (a : ℕ)
        → contains out u ≡ true
        → func_addr funcs u ≡ some a
        → has_func funcs v a ≡ true
        → contains out v ≡ true

  Round-settles :
      (live live' : List String)
      → Round roots graph funcs live live'
      → length live' ≡ length live
      → Settled live'
  Round-settles live live' r e =
      let lengths = omega_lengths in
      let no_added : r.added ≡ [] = nil_of_length r.added (omega (arith, lengths)) in
      let no_more : r.more ≡ [] = nil_of_length r.more (omega (arith, lengths)) in
      let same_alias : aliased roots graph funcs live ≡ live =
        r.aliases ∙ ap (λ (l : List String). live ++ l) no_added ∙ append-nil live in
      let same : live' ≡ live =
        r.result
        ∙ ap (λ (l : List String). (live ++ r.added) ++ l) no_more
        ∙ append-nil (live ++ r.added)
        ∙ sym r.aliases
        ∙ same_alias in
      record {
        inv = r.inv;
        shared = λ u v a live_u at_a has.
            ap (λ (l : List String). contains l v) (same ∙ sym same_alias)
            ∙ add_aliases-adds (live_addrs funcs live) funcs live v a
                (contains-live_addrs funcs live u a
                  (sym (ap (λ (l : List String). contains l u) same) ∙ live_u) at_a)
                has;
      }
    where
      omega_lengths : length live' ≡ length live + length r.added + length r.more
      omega_lengths = omega (
        arith,
        ap length r.result,
        length-append (live ++ r.added) r.more,
        length-append live r.added,
      )

      nil_of_length : (l : List String) → length l ≡ 0 → l ≡ []
      nil_of_length [] h = refl
      nil_of_length (x ∷ l) h = absurd (omega arith)

  live_loop_lem :
      (fuel : ℕ) (live : List String)
      → Inv roots graph funcs live
      → unlisted funcs live < fuel
      → (out : List String) × (live_loop fuel graph funcs live ≡ some out) × Settled out
  unfolding live_loop
  live_loop_lem zero live inv h = absurd (omega arith)
  live_loop_lem (suc fuel) live inv h =
      let (live', found) = bfs_ends (aliased roots graph funcs live) graph in
      let r = round_lem roots graph funcs live live' inv found in
      elim (Bool-cases (length live' == length live)) [
        | inl same ↦ (
          live',
          rw (found, live_loop) (rw (same, live_loop) refl),
          Round-settles live live' r (ground arith),
        )
        | inr other ↦
            let fewer = Round-falls roots graph funcs live live' inv r (λ e. ground arith) in
            let (out, ends, settled) = live_loop_lem fuel live' r.inv (omega arith) in
            (out, rw (found, live_loop) (rw (other, live_loop) ends), settled)
      ]

  Inv-bfs : (live : List String) → bfs roots graph ≡ some live → Inv roots graph funcs live
  unfolding bfs
  Inv-bfs live h =
      let fuel = edges graph + length roots in
      let next = callees graph in
      let (more, same, distinct) = worklist-Fresh next fuel [] roots live h in
      let sound = worklist_sound next roots fuel live h in
      record {
        distinct = subst (Fresh []) (sym same) distinct;
        sound = λ v m. reached_sound roots graph funcs roots (λ w k. seed k) (sound v m);
        started = λ v m. worklist_complete next roots fuel live h (root m);
        closed = λ u v m edge. worklist_complete next roots fuel live h (step (sound u m) edge);
      }

  Settled-complete :
      (out : List String)
      → Settled out
      → {v : String} → MustLive roots graph funcs v
      → contains out v ≡ true
  Settled-complete out s (seed {v} h) = s.inv.started v h
  Settled-complete out s (refer {u} {v} m edge) = s.inv.closed u v (Settled-complete out s m) edge
  Settled-complete out s (share {u} {v} a m at_a has) =
      s.shared u v a (Settled-complete out s m) at_a has

-- `compute_live_set` ends within as many rounds as there are functions, and one more; its result
-- holds exactly the names that must be live: the least set with the roots that is closed under
-- the graph's edges and under functions at the address of a live function.
pub compute_live_set_decides :
    (roots : List String) (graph : RefGraph) (funcs : FuncMap)
    → (live : List String) × (compute_live_set roots graph funcs ≡ some live)
      × ((v : String) → (contains live v ≡ true) ↔ ∥ MustLive roots graph funcs v ∥₁)
unfolding compute_live_set
compute_live_set_decides roots graph funcs =
    let (first, found) = bfs_ends roots graph in
    let (out, ends, settled) =
      live_loop_lem roots graph funcs (suc (length funcs)) first
        (Inv-bfs roots graph funcs first found) (omega (arith, unlisted-le-length funcs first)) in
    (
      out,
      rw (found, compute_live_set) ends,
      λ v. (
        λ m. ∣ settled.inv.sound v m ∣₁,
        λ m. ∥∥₁_elim m (So-prop _) (Settled-complete roots graph funcs out settled),
      ),
    )

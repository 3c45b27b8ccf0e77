-- ===== src/Analysis/Reachability/Live.antt =====
-- src/analysis/reachability.rs: one round of the loop of `compute_live_set`: it keeps its
-- invariant, and makes a function live unless nothing changes.
use mathlib.Core.List.{append-nil}
use trim.Prelude.Worklist.Graph.{edges}
use trim.Prelude.{
  ℕ, ◌+◌, ◌<◌, true, List, [], ◌∷◌, ◌++◌, some, String, ◌≡◌, refl, arith, length, length-append,
  ◌≢◌, inl, inr, string_eq, nat_eq, ap, ◌∙◌, sym, subst,
}
use trim.Prelude.Sets.{contains, contains-append, beq_refl}
use trim.Prelude.Worklist.{worklist}
use trim.Prelude.Worklist.Correct.{root, step, worklist_sound, worklist_complete}
use trim.Prelude.Worklist.Prefix.{Fresh, Fresh-append, worklist-takes}
use trim.Types.{FuncMap, RefGraph}
use trim.Analysis.Reachability.{callees, bfs, func_addr, live_addrs, add_aliases}
use trim.Analysis.Reachability.Graph.{Reaches}
use trim.Analysis.Reachability.Aliases.{
  has_func, live_addrs-func, add_aliases_mono, add_aliases-only, add_aliases-extends, unlisted,
  Grows, unlisted-lt, add_aliases-cases,
}

-- What must be live: the roots, what a live name refers to, and what shares a live function's address.
pub data MustLive (roots : List String) (graph : RefGraph) (funcs : FuncMap) : String → Type 0 where
  seed : {v : String} → contains roots v ≡ true → MustLive roots graph funcs v
  refer :
      {u v : String}
      → MustLive roots graph funcs u
      → contains (callees graph u) v ≡ true
      → MustLive roots graph funcs v
  share :
      {u v : String} (a : ℕ)
      → MustLive roots graph funcs u
      → func_addr funcs u ≡ some a
      → has_func funcs v a ≡ true
      → MustLive roots graph funcs v

module _ (roots : List String) (graph : RefGraph) (funcs : FuncMap) where
  abbrev pub aliased : List String → List String
  aliased live = add_aliases (live_addrs funcs live) funcs live

  -- A list of live names before a round, closed under the graph.
  pub record Inv (live : List String) : Type 0 where
    pub distinct : Fresh [] live
    pub sound : (v : String) → contains live v ≡ true → MustLive roots graph funcs v
    pub started : (v : String) → contains roots v ≡ true → contains live v ≡ true
    pub closed :
        (u v : String)
        → contains live u ≡ true
        → contains (callees graph u) v ≡ true
        → contains live v ≡ true

  aliased_sound :
      (live : List String)
      → Inv live
      → (v : String) → contains (aliased live) v ≡ true
      → MustLive roots graph funcs v
  aliased_sound live inv v h = elim (add_aliases-only (live_addrs funcs live) funcs live v h) [
    | inl old ↦ inv.sound v old
    | inr (a, hit, has) ↦
        let (u, live_u, at_a) = live_addrs-func funcs live a hit in
        share a (inv.sound u live_u) at_a has
  ]

  -- What a walk from sound names reaches is sound.
  pub reached_sound :
      (from : List String)
      → ((v : String) → contains from v ≡ true → MustLive roots graph funcs v)
      → {v : String} → Reaches graph from v
      → MustLive roots graph funcs v
  reached_sound from sound (root {v} h) = sound v h
  reached_sound from sound (step {u} {v} r edge) = refer (reached_sound from sound r) edge

  -- The result of a round extends the list that it starts from.
  pub record Round (live live' : List String) : Type 0 where
    pub inv : Inv live'
    pub added : List String
    pub more : List String
    pub aliases : aliased live ≡ live ++ added
    pub result : live' ≡ (live ++ added) ++ more
    pub distinct : Fresh (live ++ added) more
    pub reached : (v : String) → contains live' v ≡ true → Reaches graph (aliased live) v

  pub round_lem :
      (live live' : List String)
      → Inv live
      → bfs (aliased live) graph ≡ some live'
      → Round live live'
  unfolding bfs
  round_lem live live' inv h =
      let from = aliased live in
      let fuel = edges graph + length from in
      let next = callees graph in
      let (added, same, fresh_added) = add_aliases-extends (live_addrs funcs live) funcs live in
      let fresh_from : Fresh [] from =
        subst (Fresh []) (sym same) (Fresh-append [] live added inv.distinct fresh_added) in
      let (more, result, fresh_more) = worklist-takes next fuel [] from [] live' fresh_from (
        subst (λ (q : List String). worklist next fuel [] q ≡ some live') (sym (append-nil from))
          h) in
      let reached = worklist_sound next from fuel live' h in
      let complete =
        λ (v : String) (r : Reaches graph from v). worklist_complete next from fuel live' h r in
      record {
        inv = record {
          distinct =
              subst (Fresh []) (sym result) (Fresh-append [] from more fresh_from fresh_more);
          sound = λ v m. reached_sound from (aliased_sound live inv) (reached v m);
          started = λ v m.
              complete v
                (root (add_aliases_mono (live_addrs funcs live) funcs live v (inv.started v m)));
          closed = λ u v m edge. complete v (step (reached u m) edge);
        };
        added = added;
        more = more;
        aliases = same;
        result = result ∙ ap (λ (l : List String). l ++ more) same;
        distinct = subst (λ (l : List String). Fresh l more) same fresh_more;
        reached = reached;
      }

  -- With no new alias, a walk stays among the live names.
  stays :
      (live : List String) → Inv live → {v : String} → Reaches graph live v → contains live v ≡ true
  stays live inv (root h) = h
  stays live inv (step {u} {v} r edge) = inv.closed u v (stays live inv r) edge

  more_nil :
      (base more : List String)
      → Fresh base more
      → ((v : String) → contains (base ++ more) v ≡ true → contains base v ≡ true)
      → length more ≡ 0
  more_nil base [] distinct h = refl
  more_nil base (x ∷ more) distinct h =
      let inside = h x (contains-append base (x ∷ more) x ∙ ground (arith, beq_refl x)) in
      cc (inside, distinct.0)

  -- A round that changes the size makes a function of the map live.
  pub Round-falls :
      (live live' : List String)
      → Inv live
      → Round live live'
      → length live' ≢ length live
      → unlisted funcs live' < unlisted funcs live
  Round-falls live live' inv r ne = elim (add_aliases-cases (live_addrs funcs live) funcs live) [
    | inr (k, has, new, now) ↦
        let from_grows : Grows (aliased live) live' = λ v h. rw r.result (
          contains-append (live ++ r.added) r.more v
          ∙ ground (arith, ap (λ (l : List String). contains l v) r.aliases)) in
        unlisted-lt funcs live live' k
          (λ v h. from_grows v (add_aliases_mono (live_addrs funcs live) funcs live v h)) has new
          (from_grows k now)
    | inl same ↦
        let live_only : (v : String) → contains live' v ≡ true → contains live v ≡ true = λ v h.
          stays live inv (subst (λ (l : List String). Reaches graph l v) same (r.reached v h)) in
        let no_more : length r.more ≡ 0 = more_nil (live ++ r.added) r.more r.distinct (λ v h.
          contains-append live r.added v
          ∙ ground (arith, live_only v (ap (λ (l : List String). contains l v) r.result ∙ h))) in
        absurd (
          ne (
            omega (
              arith,
              no_more,
              ap length r.result,
              length-append (live ++ r.added) r.more,
              ap length (sym same ∙ r.aliases),
            )))
  ]

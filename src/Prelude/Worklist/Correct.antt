-- ===== src/Prelude/Worklist/Correct.antt =====
-- The search ends, and it marks exactly the nodes that a walk from the start reaches.
use Prim.Native.Nat.{ℕ, zero, suc, ◌+◌, ◌≤◌}
use mathlib.Core.Path.{◌≡◌, refl, sym, subst}
use mathlib.Core.Logic.{◌↔◌, inl, inr, ∥∥₁_elim}
use mathlib.Core.Bool.{Bool, true, false, not, ◌||◌, So-prop}
use mathlib.Core.Option.{some}
use mathlib.Core.List.{List, [], ◌∷◌, ◌++◌}
use native.Mathlib.Omega.{arith}
use trim.Prelude.Tests.{Eq, Bool-cases}
use trim.Prelude.Lists.{length, length-append}
use trim.Prelude.Sets.{
  contains, contains-append, contains-keep, contains_beq, beq_refl, length-keep,
}
use trim.Prelude.Worklist.{worklist, fresh}

or_elim {ℓ} : {P : Type ℓ} (a b : Bool) → (a || b) ≡ true → (a ≡ true → P) → (b ≡ true → P) → P
or_elim true b h f g = f refl
or_elim false b h f g = g h

module _ {ℓ} {A : Type ℓ} ⦃e : Eq A⦄ (next : A → List A) where
  abbrev pub Edge : A → A → Type 0
  Edge u v = contains (next u) v ≡ true

  -- The nodes that a walk from `roots` reaches.
  pub data Reach (roots : List A) : A → Type ℓ where
    root : {v : A} → contains roots v ≡ true → Reach roots v
    step : {u v : A} → Reach roots u → Edge u v → Reach roots v

  module _ (roots : List A) where
    record Inv (live queue : List A) : Type ℓ where
      marked : (v : A) → contains live v ≡ true → Reach roots v
      queued : (v : A) → contains queue v ≡ true → Reach roots v
      started : (v : A) → contains roots v ≡ true → (contains live v || contains queue v) ≡ true
      closed :
          (u v : A)
          → contains live u ≡ true
          → Edge u v
          → (contains live v || contains queue v) ≡ true

    Inv-start : Inv [] roots
    Inv-start = record {
      marked = λ v h. cc;
      queued = λ v h. root h;
      started = λ v h. h;
      closed = λ u v h edge. cc;
    }

    -- A node that was seen is dropped from the queue.
    Inv-skip :
        (live rest : List A) (name : A)
        → contains live name ≡ true
        → Inv live (name ∷ rest)
        → Inv live rest
    Inv-skip live rest name seen inv = record {
      marked = inv.marked;
      queued = λ v h. inv.queued v (ground arith);
      started = λ v h. ground (arith, inv.started v h, contains_beq live name v);
      closed = λ u v h edge. ground (arith, inv.closed u v h edge, contains_beq live name v);
    }

    Inv-visit :
        (live rest : List A) (name : A)
        → Inv live (name ∷ rest)
        → Inv (live ++ name ∷ []) (rest ++ fresh next (live ++ name ∷ []) name)
    Inv-visit live rest name inv =
        let live' = live ++ name ∷ [] in
        let in_live = λ (v : A). contains-append live (name ∷ []) v in
        let in_fresh = λ (v : A). contains-keep (λ c. not (contains live' c)) (next name) v in
        let in_queue = λ (v : A). contains-append rest (fresh next live' name) v in
        let reached = inv.queued name (ground (arith, beq_refl name)) in
        record {
          marked = λ v h.
              or_elim (contains live v) (e.beq name v) (ground (arith, in_live v)) (inv.marked v)
                (λ same. subst (Reach roots) ((e.beq_iff name v).0 same) reached);
          queued = λ v h.
              or_elim (contains rest v) (contains (next name) v)
                (ground (arith, in_queue v, in_fresh v)) (λ q. inv.queued v (ground arith))
                (λ edge. step reached edge);
          started = λ v h. ground (arith, in_live v, in_fresh v, in_queue v, inv.started v h);
          closed = λ u v h edge.
              or_elim (contains live u) (e.beq name u) (ground (arith, in_live u))
                (λ old. ground (arith, in_live v, in_fresh v, in_queue v, inv.closed u v old edge))
                (λ same. ground (
                  arith,
                  in_live v,
                  in_fresh v,
                  in_queue v,
                  subst (λ (x : A). Edge x v) (sym ((e.beq_iff name u).0 same)) edge,
                ));
        }

    -- The search keeps the invariant and stops with an empty queue.
    worklist-Inv :
        (fuel : ℕ) (live queue out : List A)
        → Inv live queue
        → worklist next fuel live queue ≡ some out
        → Inv out []
    unfolding worklist
    worklist-Inv zero live [] out inv h =
        let e : live ≡ out = cc in subst (λ (l : List A). Inv l []) e inv
    worklist-Inv zero live (name ∷ rest) out inv h = cc
    worklist-Inv (suc fuel) live [] out inv h =
        let e : live ≡ out = cc in subst (λ (l : List A). Inv l []) e inv
    worklist-Inv (suc fuel) live (name ∷ rest) out inv h = elim (Bool-cases (contains live name)) [
      | inl seen ↦
          worklist-Inv fuel live rest out (Inv-skip live rest name seen inv)
            (rw (seen, worklist) at h)
      | inr new ↦
          worklist-Inv fuel (live ++ name ∷ []) (rest ++ fresh next (live ++ name ∷ []) name) out
            (Inv-visit live rest name inv) (rw (new, worklist) at h)
    ]

    complete : (out : List A) → Inv out [] → {v : A} → Reach roots v → contains out v ≡ true
    complete out inv (root {v} h) = ground (arith, inv.started v h)
    complete out inv (step {u} {v} r edge) =
        ground (arith, inv.closed u v (complete out inv r) edge)

    pub worklist_sound :
        (fuel : ℕ) (out : List A)
        → worklist next fuel [] roots ≡ some out
        → (v : A) → contains out v ≡ true
        → Reach roots v
    worklist_sound fuel out h = (worklist-Inv fuel [] roots out Inv-start h).marked

    pub worklist_complete :
        (fuel : ℕ) (out : List A)
        → worklist next fuel [] roots ≡ some out
        → {v : A} → Reach roots v
        → contains out v ≡ true
    worklist_complete fuel out h r = complete out (worklist-Inv fuel [] roots out Inv-start h) r

    -- What the search returns holds exactly the nodes that a walk reaches.
    pub worklist_correct :
        (fuel : ℕ) (out : List A)
        → worklist next fuel [] roots ≡ some out
        → (v : A) → (contains out v ≡ true) ↔ ∥ Reach roots v ∥₁
    worklist_correct fuel out h v = (
      λ m. ∣ worklist_sound fuel out h v m ∣₁,
      λ r. ∥∥₁_elim r (So-prop _) (worklist_complete fuel out h),
    )

  -- With a weight that pays for the successors of each node that is newly marked, the fuel suffices.
  pub worklist_ends :
      (weight : List A → ℕ)
      → ((live : List A) (x : A)
          → contains live x ≡ false
          → weight (live ++ x ∷ []) + length (next x) ≤ weight live)
      → (fuel : ℕ) (live queue : List A) → weight live + length queue ≤ fuel
      → (out : List A) × (worklist next fuel live queue ≡ some out)
  unfolding worklist
  worklist_ends weight pays zero live [] h = (live, refl)
  worklist_ends weight pays zero live (name ∷ rest) h = absurd (omega arith)
  worklist_ends weight pays (suc fuel) live [] h = (live, refl)
  worklist_ends weight pays (suc fuel) live (name ∷ rest) h =
      elim (Bool-cases (contains live name)) [
        | inl seen ↦
            let (out, ends) = worklist_ends weight pays fuel live rest (omega arith) in
            (out, rw (seen, worklist) ends)
        | inr new ↦
            let live' = live ++ name ∷ [] in
            let (out, ends) = worklist_ends weight pays fuel live' (rest ++ fresh next live' name) (
              omega (
                arith,
                pays live name new,
                length-append rest (fresh next live' name),
                length-keep (λ c. not (contains live' c)) (next name),
              )) in
            (out, rw (new, worklist) ends)
      ]

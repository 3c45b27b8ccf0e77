-- ===== src/Analysis/Dominance/Order.antt =====
-- src/analysis/dominance.rs: the depth-first search of `compute_rpo` ends.
use trim.Prelude.{
  ℕ, zero, suc, ◌+◌, ◌≤◌, ◌<◌, true, false, List, [], ◌∷◌, some, ◌≡◌, refl, subst, arith, leb, ◌==◌,
  length, All, Bool-cases, inl, inr, nat_eq,
}
use trim.Prelude.Sets.{contains, beq_refl}
use trim.Analysis.Dominance.{row, Stack, push_succs, rpo_from, work, compute_rpo}

length-push_succs :
    (n : ℕ) (visited ss : List ℕ) (stack : Stack)
    → length (push_succs n visited ss stack) ≤ length ss + length stack
unfolding push_succs
length-push_succs n visited [] stack = omega arith
length-push_succs n visited (s ∷ ss) stack = ground (arith, length-push_succs n visited ss stack)

work_mono :
    (succs : List (List ℕ)) (visited : List ℕ) (x k : ℕ)
    → work succs (x ∷ visited) k ≤ work succs visited k
unfolding work
work_mono succs visited x zero = omega arith
work_mono succs visited x (suc k) = ground (arith, work_mono succs visited x k)

work_pays_last :
    (succs : List (List ℕ)) (visited : List ℕ) (k : ℕ)
    → contains visited k ≡ false
    → work succs (k ∷ visited) (suc k) + (1 + length (row succs k)) ≤ work succs visited (suc k)
unfolding work
work_pays_last succs visited k new =
    let here : contains (k ∷ visited) k ≡ true = ground (arith, beq_refl k) in
    rw (here, new) (omega (arith, work_mono succs visited k k))

-- A visit pays for the block and its successors.
work_pays :
    (succs : List (List ℕ)) (visited : List ℕ) (x k : ℕ)
    → contains visited x ≡ false
    → x < k
    → work succs (x ∷ visited) k + (1 + length (row succs x)) ≤ work succs visited k
unfolding work
work_pays succs visited x zero new h = absurd (omega arith)
work_pays succs visited x (suc k) new h = elim (Bool-cases (x == k)) [
  | inl same ↦
      let e : k ≡ x = ground arith in
      subst
        (λ (y : ℕ).
          contains visited y ≡ false
          → work succs (y ∷ visited) (suc k) + (1 + length (row succs y))
            ≤ work succs visited (suc k))
        e (work_pays_last succs visited k) new
  | inr other ↦ ground (arith, work_pays succs visited x k new (ground arith))
]

rpo_from-ends :
    (fuel : ℕ) (succs : List (List ℕ)) (n : ℕ) (visited : List ℕ) (stack : Stack) (order : List ℕ)
    → work succs visited n + length stack ≤ fuel
    → All (λ b. b < n) order
    → (out : List ℕ) × (rpo_from fuel succs n visited stack order ≡ some out) × All (λ b. b < n) out
unfolding rpo_from
rpo_from-ends zero succs n visited [] order h below = (order, refl, below)
rpo_from-ends zero succs n visited (x ∷ stack) order h below = absurd (omega arith)
rpo_from-ends (suc fuel) succs n visited [] order h below = (order, refl, below)
rpo_from-ends (suc fuel) succs n visited ((node, processed) ∷ rest) order h below =
    elim (Bool-cases (leb n node)) [
      | inl past ↦
          rw (rpo_from, past) (rpo_from-ends fuel succs n visited rest order (omega arith) below)
      | inr inside ↦
          let lt : node < n = ground arith in
          elim (Bool-cases processed) [
            | inl done ↦
                rw (rpo_from, inside, done)
                  (rpo_from-ends fuel succs n visited rest (node ∷ order) (omega arith) (lt, below))
            | inr open_yet ↦ elim (Bool-cases (contains visited node)) [
              | inl seen ↦
                  rw (rpo_from, inside, open_yet, seen)
                    (rpo_from-ends fuel succs n visited rest order (omega arith) below)
              | inr new ↦
                  let visited' = node ∷ visited in
                  let pushed =
                    length-push_succs n visited' (row succs node) ((node, true) ∷ rest) in
                  let pays = work_pays succs visited node n new lt in
                  rw (rpo_from, inside, open_yet, new)
                    (rpo_from-ends fuel succs n visited'
                      (push_succs n visited' (row succs node) ((node, true) ∷ rest)) order
                      (omega (arith, pushed, pays)) below)
            ]
          ]
    ]

-- The search ends on every graph, and lists only blocks of the graph.
pub compute_rpo_ends :
    (succs : List (List ℕ)) (entry n : ℕ)
    → (order : List ℕ) × (compute_rpo succs entry n ≡ some order) × All (λ b. b < n) order
unfolding compute_rpo
compute_rpo_ends succs entry n =
    rpo_from-ends (work succs [] n + 1) succs n [] ((entry, false) ∷ []) [] (omega arith) tt

-- ===== src/Format/Wasm/Graph/Queue.antt =====
-- src/format/wasm/mod.rs: what `enqueue` marks and queues.
use trim.Prelude.{
  ℕ, ◌+◌, ◌≤◌, ◌<◌, Bool, true, false, not, List, [], ◌∷◌, ◌++◌, ◌≡◌, ap, arith, ◌==◌, ◌||◌, ◌&&◌,
  if◌then◌else◌, nat_eq, length, length-append, Bool-cases, inl, inr,
}
use trim.Prelude.Sets.{contains, contains-append, contains_beq}
use trim.Format.Wasm.Graph.{enqueue}

enqueue_seen :
    (x : ℕ) (xs visited queue : List ℕ)
    → contains visited x ≡ true
    → enqueue (x ∷ xs) (visited, queue) ≡ enqueue xs (visited, queue)
unfolding enqueue
enqueue_seen x xs visited queue h =
    ap
      (λ (b : Bool).
        enqueue xs (if b then (visited, queue) else (visited ++ x ∷ [], queue ++ x ∷ [])))
      h

enqueue_new :
    (x : ℕ) (xs visited queue : List ℕ)
    → contains visited x ≡ false
    → enqueue (x ∷ xs) (visited, queue) ≡ enqueue xs (visited ++ x ∷ [], queue ++ x ∷ [])
unfolding enqueue
enqueue_new x xs visited queue h =
    ap
      (λ (b : Bool).
        enqueue xs (if b then (visited, queue) else (visited ++ x ∷ [], queue ++ x ∷ [])))
      h

pub enqueue-visited :
    (xs visited queue : List ℕ) (v : ℕ)
    → contains (enqueue xs (visited, queue)).0 v ≡ (contains visited v || contains xs v)
unfolding enqueue
enqueue-visited [] visited queue v = ground arith
enqueue-visited (x ∷ xs) visited queue v = elim (Bool-cases (contains visited x)) [
  | inl seen ↦
      rw (enqueue_seen x xs visited queue seen)
        (ground (arith, enqueue-visited xs visited queue v, contains_beq visited x v))
  | inr new ↦ rw (enqueue_new x xs visited queue new) (
      ground (
        arith,
        enqueue-visited xs (visited ++ x ∷ []) (queue ++ x ∷ []) v,
        contains-append visited (x ∷ []) v,
      ))
]

-- What was queued stays so, and what is marked anew is queued.
pub enqueue-queue :
    (xs visited queue : List ℕ) (v : ℕ)
    → contains (enqueue xs (visited, queue)).1 v
      ≡ (contains queue v || (contains xs v && not (contains visited v)))
unfolding enqueue
enqueue-queue [] visited queue v = ground arith
enqueue-queue (x ∷ xs) visited queue v = elim (Bool-cases (contains visited x)) [
  | inl seen ↦
      rw (enqueue_seen x xs visited queue seen)
        (ground (arith, enqueue-queue xs visited queue v, contains_beq visited x v))
  | inr new ↦ rw (enqueue_new x xs visited queue new) (
      ground (
        arith,
        enqueue-queue xs (visited ++ x ∷ []) (queue ++ x ∷ []) v,
        new,
        contains_beq visited x v,
        contains-append visited (x ∷ []) v,
        contains-append queue (x ∷ []) v,
      ))
]

-- How many of the places where a function is named name one that is not visited.
unfoldable pub unmarked : List ℕ → List ℕ → ℕ
unmarked visited [] = 0
unmarked visited (x ∷ xs) = (if contains visited x then 0 else 1) + unmarked visited xs

pub unmarked-le : (visited all : List ℕ) → unmarked visited all ≤ length all
unfolding unmarked
unmarked-le visited [] = omega arith
unmarked-le visited (x ∷ all) = ground (arith, unmarked-le visited all)

unmarked_mono :
    (visited all : List ℕ) (x : ℕ) → unmarked (visited ++ x ∷ []) all ≤ unmarked visited all
unfolding unmarked
unmarked_mono visited [] x = omega arith
unmarked_mono visited (y ∷ all) x =
    ground (arith, unmarked_mono visited all x, contains-append visited (x ∷ []) y)

unmarked_lt :
    (visited all : List ℕ) (x : ℕ)
    → contains visited x ≡ false
    → contains all x ≡ true
    → unmarked (visited ++ x ∷ []) all < unmarked visited all
unfolding unmarked
unmarked_lt visited [] x new named = absurd cc
unmarked_lt visited (y ∷ all) x new named = elim (Bool-cases (y == x)) [
  | inl same ↦
      let e : y ≡ x = ground arith in
      rw e (ground (arith, unmarked_mono visited all x, contains-append visited (x ∷ []) x))
  | inr other ↦
      ground (
        arith,
        unmarked_lt visited all x new (rw other at named),
        contains-append visited (x ∷ []) y,
      )
]

-- Marking pays for queueing.
pub enqueue_pays :
    (all xs visited queue : List ℕ)
    → ((v : ℕ) → contains xs v ≡ true → contains all v ≡ true)
    → let r = enqueue xs (visited, queue) in
      length r.1 + unmarked r.0 all ≤ length queue + unmarked visited all
unfolding enqueue
enqueue_pays all [] visited queue named = omega arith
enqueue_pays all (x ∷ xs) visited queue named =
    let later : (v : ℕ) → contains xs v ≡ true → contains all v ≡ true =
      λ v h. named v (ground arith) in
    elim (Bool-cases (contains visited x)) [
      | inl seen ↦
          rw (enqueue_seen x xs visited queue seen) (enqueue_pays all xs visited queue later)
      | inr new ↦
          let rest = enqueue_pays all xs (visited ++ x ∷ []) (queue ++ x ∷ []) later in
          let lt = unmarked_lt visited all x new (named x (ground arith)) in
          rw (enqueue_new x xs visited queue new)
            (omega (arith, rest, lt, length-append queue (x ∷ [])))
    ]

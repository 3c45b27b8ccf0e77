-- ===== src/Prelude/Worklist/Prefix.antt =====
-- The search lists no node twice, and marks a queue of new nodes in its order before any other.
use Prim.Native.Nat.{ℕ, zero, suc}
use mathlib.Core.Path.{◌≡◌, sym, ◌∙◌, subst}
use mathlib.Core.Logic.{inl, inr}
use mathlib.Core.Bool.{false}
use mathlib.Core.Option.{some}
use mathlib.Core.List.{List, [], ◌∷◌, ◌++◌, append-nil, append_assoc}
use trim.Prelude.Tests.{Eq, Bool-cases}
use trim.Prelude.Sets.{contains}
use trim.Prelude.Worklist.{worklist, fresh}

module _ {ℓ} {A : Type ℓ} ⦃e : Eq A⦄ where
  -- No member of the second list is in the first, or twice in the second.
  abbrev pub Fresh : List A → List A → Type 0
  Fresh old [] = Unit
  Fresh old (x ∷ xs) = (contains old x ≡ false) × Fresh (old ++ x ∷ []) xs

  pub Fresh-append :
      (old xs ys : List A) → Fresh old xs → Fresh (old ++ xs) ys → Fresh old (xs ++ ys)
  Fresh-append old [] ys h k = subst (λ (l : List A). Fresh l ys) (append-nil old) k
  Fresh-append old (x ∷ xs) ys h k = (
    h.0,
    Fresh-append (old ++ x ∷ []) xs ys h.1
        (subst (λ (l : List A). Fresh l ys) (sym (append_assoc old (x ∷ []) xs)) k),
  )

module _ {ℓ} {A : Type ℓ} ⦃e : Eq A⦄ (next : A → List A) where
  pub worklist-Fresh :
      (fuel : ℕ) (live queue out : List A)
      → worklist next fuel live queue ≡ some out
      → (more : List A) × (out ≡ live ++ more) × Fresh live more
  unfolding worklist
  worklist-Fresh zero live [] out h = ([], cc (append-nil live), tt)
  worklist-Fresh zero live (name ∷ rest) out h = cc
  worklist-Fresh (suc fuel) live [] out h = ([], cc (append-nil live), tt)
  worklist-Fresh (suc fuel) live (name ∷ rest) out h = elim (Bool-cases (contains live name)) [
    | inl seen ↦ worklist-Fresh fuel live rest out (rw (seen, worklist) at h)
    | inr new ↦
        let live' = live ++ name ∷ [] in
        let (more, same, distinct) =
          worklist-Fresh fuel live' (rest ++ fresh next live' name) out (rw (new, worklist) at h) in
        (name ∷ more, same ∙ append_assoc live (name ∷ []) more, (new, distinct))
  ]

  pub worklist-takes :
      (fuel : ℕ) (live xs queue out : List A)
      → Fresh live xs
      → worklist next fuel live (xs ++ queue) ≡ some out
      → (more : List A) × (out ≡ (live ++ xs) ++ more) × Fresh (live ++ xs) more
  unfolding worklist
  worklist-takes fuel live [] queue out distinct h =
      rw (append-nil live) (worklist-Fresh fuel live queue out h)
  worklist-takes zero live (x ∷ xs) queue out distinct h = cc
  worklist-takes (suc fuel) live (x ∷ xs) queue out distinct h =
      let live' = live ++ x ∷ [] in
      let h' : worklist next fuel live' (xs ++ (queue ++ fresh next live' x)) ≡ some out =
        subst (λ (q : List A). worklist next fuel live' q ≡ some out)
          (append_assoc xs queue (fresh next live' x)) (rw (distinct.0, worklist) at h) in
      subst (λ (l : List A). (more : List A) × (out ≡ l ++ more) × Fresh l more)
        (append_assoc live (x ∷ []) xs)
        (worklist-takes fuel live' xs (queue ++ fresh next live' x) out distinct.1 h')

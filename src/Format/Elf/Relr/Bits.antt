-- ===== src/Format/Elf/Relr/Bits.antt =====
-- src/format/elf/relr.rs: the bits of a bitmap, and the addresses that they stand for.
use trim.Prelude.{
  ℕ, zero, suc, ◌+◌, ◌*◌, ◌/◌, ◌%◌, ◌^◌, ◌≤◌, ◌<◌, [], ◌∷◌, ◌++◌, ◌≡◌, refl, sym, ◌∙◌, ap, arith,
  leb, Bool-cases, inl, inr, wrapping_add,
}
use mathlib.Core.List.{append-nil}
use native.Mathlib.Nat.{div-div-eq-div-mul}
use trim.Format.Elf.Relr.{bit, set_bit, pushed}

bit-suc : (w n : ℕ) → bit w (suc n) ≡ bit (w / 2) n
bit-suc w n =
    let e : 2 ^ suc n ≡ 2 * 2 ^ n = omega arith in
    rw e (ap (λ x. x % 2) (sym (div-div-eq-div-mul w 2 (2 ^ n))))

bit-small : (b n : ℕ) → b < 2 ^ n → bit b n ≡ 0
bit-small b zero h = omega arith
bit-small b (suc n) h = bit-suc b n ∙ bit-small (b / 2) n (omega arith)

pub pow_mono : (k n : ℕ) → k ≤ n → 2 ^ k ≤ 2 ^ n
pow_mono zero zero h = omega arith
pow_mono zero (suc n) h = omega (arith, pow_mono zero n (omega arith))
pow_mono (suc k) zero h = omega arith
pow_mono (suc k) (suc n) h = omega (arith, pow_mono k n (omega arith))

bit-below : (b k n : ℕ) → n < k → bit (b + 2 ^ k) n ≡ bit b n
bit-below b zero n h = omega arith
bit-below b (suc k) zero h = omega arith
bit-below b (suc k) (suc n) h =
    let e : (b + 2 ^ suc k) / 2 ≡ b / 2 + 2 ^ k = omega arith in
    bit-suc (b + 2 ^ suc k) n
    ∙ ap (λ x. bit x n) e
    ∙ bit-below (b / 2) k n (omega arith)
    ∙ sym (bit-suc b n)

bit-top : (b k : ℕ) → b < 2 ^ k → bit (b + 2 ^ k) k ≡ 1
bit-top b zero h = omega arith
bit-top b (suc k) h =
    let e : (b + 2 ^ suc k) / 2 ≡ b / 2 + 2 ^ k = omega arith in
    bit-suc (b + 2 ^ suc k) k ∙ ap (λ x. bit x k) e ∙ bit-top (b / 2) k (omega arith)

-- The words keep bit 0 for themselves.
bit-word : (b n : ℕ) → bit (b * 2 + 1) (suc n) ≡ bit b n
bit-word b n =
    let e : (b * 2 + 1) / 2 ≡ b = omega arith in bit-suc (b * 2 + 1) n ∙ ap (λ x. bit x n) e

-- Bits from `k` on that are not set add nothing.
pushed-small :
    (k n next b : ℕ) → b < 2 ^ k → k ≤ n → pushed n next (b * 2 + 1) ≡ pushed k next (b * 2 + 1)
unfolding pushed
pushed-small k zero next b h le = let e : k ≡ 0 = omega arith in rw e refl
pushed-small k (suc n) next b h le = elim (Bool-cases (leb k n)) [
  | inl y ↦
      let none_set : bit (b * 2 + 1) (suc n) ≡ 0 =
        bit-word b n ∙ bit-small b n (omega (arith, pow_mono k n (ground arith))) in
      rw none_set
        (append-nil (pushed n next (b * 2 + 1)) ∙ pushed-small k n next b h (ground arith))
  | inr n' ↦ let e : k ≡ suc n = ground arith in rw e refl
]

-- Only the bits below `n` count.
pushed-below :
    (n k next b : ℕ) → n ≤ k → pushed n next ((b + 2 ^ k) * 2 + 1) ≡ pushed n next (b * 2 + 1)
unfolding pushed
pushed-below zero k next b h = refl
pushed-below (suc n) k next b h =
    let e : bit ((b + 2 ^ k) * 2 + 1) (suc n) ≡ bit (b * 2 + 1) (suc n) =
      bit-word (b + 2 ^ k) n ∙ bit-below b k n h ∙ sym (bit-word b n) in
    rw (e, pushed-below n k next b (omega arith)) refl

pushed-top :
    (k next b : ℕ)
    → b < 2 ^ k
    → pushed (suc k) next ((b + 2 ^ k) * 2 + 1)
      ≡ pushed k next (b * 2 + 1) ++ (wrapping_add next (k * 8) ∷ [])
unfolding pushed
pushed-top k next b h =
    let top : bit ((b + 2 ^ k) * 2 + 1) (suc k) ≡ 1 = bit-word (b + 2 ^ k) k ∙ bit-top b k h in
    rw (top, pushed-below k k next b (omega arith)) refl

-- A new top bit adds its address at the end.
pub pushed-set_bit :
    (k n next b : ℕ)
    → b < 2 ^ k
    → k < n
    → (pushed n next (set_bit b k * 2 + 1)
        ≡ pushed n next (b * 2 + 1) ++ (wrapping_add next (k * 8) ∷ []))
      × (set_bit b k < 2 ^ suc k)
      × (b < set_bit b k)
unfolding set_bit
pushed-set_bit k n next b h lt =
    let above = pow_mono 0 k (omega arith) in
    let e : bit b k ≡ 0 = bit-small b k h in
    let round = pushed-top k next b h in
    rw e (
      pushed-small (suc k) n next (b + 2 ^ k) (omega arith) (omega arith)
          ∙ round
          ∙ ap (λ x. x ++ (wrapping_add next (k * 8) ∷ []))
              (sym (pushed-small k n next b h (omega arith))),
      omega arith,
      omega arith,
    )

pub pushed-empty : (next : ℕ) → pushed 63 next (0 * 2 + 1) ≡ []
unfolding pushed
pushed-empty next = pushed-small 0 63 next 0 (omega arith) (omega arith)

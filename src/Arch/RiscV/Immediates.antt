-- ===== src/Arch/RiscV/Immediates.antt =====
-- src/arch/riscv.rs and riscv_patch.rs: what the decoder reads of an immediate that the patch
-- wrote.
use trim.Prelude.{ℕ, ◌+◌, ◌*◌, ◌%◌, ◌^◌, ◌<◌, ◌≡◌, refl, arith}
use trim.Arch.{field, sign_extend}
use trim.Arch.RiscV.{
  jal_imm, branch_imm, c_j_imm, c_branch_imm, encode_jal_imm, encode_branch_imm, encode_c_j_imm,
  encode_c_branch_imm,
}

sign_extend-low :
    (d n : ℕ) → d % 2 ^ n % 2 ^ n ≡ d % 2 ^ n → sign_extend (d % 2 ^ n) n ≡ sign_extend d n
sign_extend-low d n e = rw e refl

-- The fields of a sum of fields that do not overlap.
jal_fields :
    (l p q s t : ℕ)
    → l < 2 ^ 12
    → p < 2
    → q < 2 ^ 10
    → s < 2
    → t < 2 ^ 8
    → (let w = l + (p * 2 ^ 31 + q * 2 ^ 21 + s * 2 ^ 20 + t * 2 ^ 12) in
        (field 31 1 w ≡ p)
        × (field 21 10 w ≡ q)
        × (field 20 1 w ≡ s)
        × (field 12 8 w ≡ t)
        × (field 0 12 w ≡ l))
jal_fields l p q s t h1 h2 h3 h4 h5 =
    (omega arith, omega arith, omega arith, omega arith, omega arith)

-- What the decoder reads of what the encoder wrote: the low bits of an even displacement.
pub jal_imm-encode :
    (l d : ℕ)
    → l < 2 ^ 12
    → d % 2 ≡ 0
    → (jal_imm (l + encode_jal_imm d) ≡ sign_extend d 21) × (field 0 12 (l + encode_jal_imm d) ≡ l)
unfolding jal_imm encode_jal_imm
jal_imm-encode l d h even =
    let (e1, e2, e3, e4, e5) =
      jal_fields l (field 20 1 d) (field 1 10 d) (field 11 1 d) (field 12 8 d) h (omega arith)
        (omega arith) (omega arith) (omega arith) in
    let whole : field 20 1 d * 2 ^ 20
          + field 12 8 d * 2 ^ 12
          + field 11 1 d * 2 ^ 11
          + field 1 10 d * 2
        ≡ d % 2 ^ 21 =
      omega arith in
    (rw (e1, e2, e3, e4) (rw whole (sign_extend-low d 21 (omega arith))), e5)

branch_fields :
    (k l p q s t : ℕ)
    → k < 2 ^ 13
    → l < 2 ^ 7
    → p < 2
    → q < 2 ^ 6
    → s < 2 ^ 4
    → t < 2
    → (let w = k * 2 ^ 12 + l + (p * 2 ^ 31 + q * 2 ^ 25 + s * 2 ^ 8 + t * 2 ^ 7) in
        (field 31 1 w ≡ p)
        × (field 7 1 w ≡ t)
        × (field 25 6 w ≡ q)
        × (field 8 4 w ≡ s)
        × (field 0 7 w ≡ l))
branch_fields k l p q s t h1 h2 h3 h4 h5 h6 =
    (omega arith, omega arith, omega arith, omega arith, omega arith)

pub branch_imm-encode :
    (k l d : ℕ)
    → k < 2 ^ 13
    → l < 2 ^ 7
    → d % 2 ≡ 0
    → (branch_imm (k * 2 ^ 12 + l + encode_branch_imm d) ≡ sign_extend d 13)
      × (field 0 7 (k * 2 ^ 12 + l + encode_branch_imm d) ≡ l)
unfolding branch_imm encode_branch_imm
branch_imm-encode k l d h h' even =
    let (e1, e2, e3, e4, e5) =
      branch_fields k l (field 12 1 d) (field 5 6 d) (field 1 4 d) (field 11 1 d) h h' (omega arith)
        (omega arith) (omega arith) (omega arith) in
    let whole : field 12 1 d * 2 ^ 12
          + field 11 1 d * 2 ^ 11
          + field 5 6 d * 2 ^ 5
          + field 1 4 d * 2
        ≡ d % 2 ^ 13 =
      omega arith in
    (rw (e1, e2, e3, e4) (rw whole (sign_extend-low d 13 (omega arith))), e5)

-- The three parts of a compressed jump, and the parts of its immediate.
half_fields :
    (g l m : ℕ)
    → g < 8
    → l < 4
    → m < 2 ^ 11
    → (let w = g * 2 ^ 13 + l + m * 2 ^ 2 in
        (field 2 11 w ≡ m) × (field 0 2 w ≡ l) × (field 13 3 w ≡ g))
half_fields g l m h h' h'' = (omega arith, omega arith, omega arith)

c_j_fields :
    (p q s t u v x y : ℕ)
    → (p < 2) × (q < 8) × (s < 2) × (t < 2) × (u < 2) × (v < 4) × (x < 2) × (y < 2)
    → (let m = p + q * 2 + s * 2 ^ 4 + t * 2 ^ 5 + u * 2 ^ 6 + v * 2 ^ 7 + x * 2 ^ 9 + y * 2 ^ 10 in
        (m < 2 ^ 11)
        × (field 0 1 m ≡ p)
        × (field 1 3 m ≡ q)
        × (field 4 1 m ≡ s)
        × (field 5 1 m ≡ t)
        × (field 6 1 m ≡ u)
        × (field 7 2 m ≡ v)
        × (field 9 1 m ≡ x)
        × (field 10 1 m ≡ y))
c_j_fields p q s t u v x y h = (
  omega arith,
  omega arith,
  omega arith,
  omega arith,
  omega arith,
  omega arith,
  omega arith,
  omega arith,
  omega arith,
)

pub c_j_imm-encode :
    (g l d : ℕ)
    → g < 8
    → l < 4
    → d % 2 ≡ 0
    → (let w = g * 2 ^ 13 + l + encode_c_j_imm d in
        (c_j_imm w ≡ sign_extend d 12) × (field 0 2 w ≡ l) × (field 13 3 w ≡ g))
unfolding c_j_imm encode_c_j_imm
c_j_imm-encode g l d h h' even =
    let (bound, e1, e2, e3, e4, e5, e6, e7, e8) =
      c_j_fields (field 5 1 d) (field 1 3 d) (field 7 1 d) (field 6 1 d) (field 10 1 d)
        (field 8 2 d) (field 4 1 d) (field 11 1 d)
        (
          omega arith,
          omega arith,
          omega arith,
          omega arith,
          omega arith,
          omega arith,
          omega arith,
          omega arith,
        ) in
    let (e, e', e'') =
      half_fields g l
        (field 5 1 d
          + field 1 3 d * 2
          + field 7 1 d * 2 ^ 4
          + field 6 1 d * 2 ^ 5
          + field 10 1 d * 2 ^ 6
          + field 8 2 d * 2 ^ 7
          + field 4 1 d * 2 ^ 9
          + field 11 1 d * 2 ^ 10)
        h h' bound in
    let whole : field 11 1 d * 2 ^ 11
          + field 10 1 d * 2 ^ 10
          + field 8 2 d * 2 ^ 8
          + field 7 1 d * 2 ^ 7
          + field 6 1 d * 2 ^ 6
          + field 5 1 d * 2 ^ 5
          + field 4 1 d * 2 ^ 4
          + field 1 3 d * 2
        ≡ d % 2 ^ 12 =
      omega arith in
    (
      rw e (rw (e1, e2, e3, e4, e5, e6, e7, e8) (rw whole (sign_extend-low d 12 (omega arith)))),
      e',
      e'',
    )

c_branch_fields :
    (k m l p q s t u : ℕ)
    → (k < 8) × (m < 8) × (l < 4) × (p < 4) × (q < 2) × (s < 2) × (t < 4) × (u < 4)
    → (let w =
          k * 2 ^ 13
          + m * 2 ^ 7
          + l
          + ((p + q * 2 ^ 2) * 2 ^ 10 + (s + t * 2 + u * 2 ^ 3) * 2 ^ 2) in
        (field 2 5 w ≡ s + t * 2 + u * 2 ^ 3)
        × (field 10 3 w ≡ p + q * 2 ^ 2)
        × (field 0 2 w ≡ l)
        × (field 13 3 w ≡ k))
c_branch_fields k m l p q s t u h = (omega arith, omega arith, omega arith, omega arith)

c_branch_parts :
    (p q s t u : ℕ)
    → (p < 4) × (q < 2) × (s < 2) × (t < 4) × (u < 4)
    → (let hi = p + q * 2 ^ 2 in
        let lo = s + t * 2 + u * 2 ^ 3 in
        (field 2 1 hi ≡ q)
        × (field 3 2 lo ≡ u)
        × (field 0 1 lo ≡ s)
        × (field 0 2 hi ≡ p)
        × (field 1 2 lo ≡ t))
c_branch_parts p q s t u h = (omega arith, omega arith, omega arith, omega arith, omega arith)

pub c_branch_imm-encode :
    (k m l d : ℕ)
    → k < 8
    → m < 8
    → l < 4
    → d % 2 ≡ 0
    → (let w = k * 2 ^ 13 + m * 2 ^ 7 + l + encode_c_branch_imm d in
        (c_branch_imm w ≡ sign_extend d 9) × (field 0 2 w ≡ l) × (field 13 3 w ≡ k))
unfolding c_branch_imm encode_c_branch_imm
c_branch_imm-encode k m l d hk hm hl even =
    let (e, e', low, high) =
      c_branch_fields k m l (field 3 2 d) (field 8 1 d) (field 5 1 d) (field 1 2 d) (field 6 2 d)
        (hk, hm, hl, omega arith, omega arith, omega arith, omega arith, omega arith) in
    let (e1, e2, e3, e4, e5) =
      c_branch_parts (field 3 2 d) (field 8 1 d) (field 5 1 d) (field 1 2 d) (field 6 2 d)
        (omega arith, omega arith, omega arith, omega arith, omega arith) in
    let whole : field 8 1 d * 2 ^ 8
          + field 6 2 d * 2 ^ 6
          + field 5 1 d * 2 ^ 5
          + field 3 2 d * 2 ^ 3
          + field 1 2 d * 2
        ≡ d % 2 ^ 9 =
      omega arith in
    (rw (e, e') (rw (e1, e2, e3, e4, e5) (rw whole (sign_extend-low d 9 (omega arith)))), low, high)

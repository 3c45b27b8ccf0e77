-- ===== src/Arch/RiscV/Auipc/Offset.antt =====
-- src/arch/riscv_patch.rs: the address that a patched pair names.
use trim.Prelude.{
  ℕ, ◌+◌, ◌-◌, ◌*◌, ◌^◌, ◌≤◌, ◌<◌, Option, none, some, ◌≡◌, refl, ◌∙◌, arith, leb, wrapping_add,
  wrapping_sub, u64_mod, Bool-cases, inl, inr, ◌⊎◌,
}
use trim.Patch.Relocs.{Intervals}
use trim.Arch.{field, sar, sign_extend, moved}
use trim.Arch.Moved.{Moves, IsText, InText, moved-Moves, retarget-elim}
use trim.Arch.RiscV.Auipc.{
  auipc_offset, i_type_imm, s_type_imm, encode_i_type_imm, encode_s_type_imm, is_store, low_offset,
  pair_target, hi20, lo12, with_hi20, with_lo12, new_offset,
}

-- The distances that a pair can have: 32 bits, less what the sign of the low part takes.
abbrev IsPairOffset : ℕ → Type 0
IsPairOffset d = (d < 2 ^ 31 - 2 ^ 11) ⊎ ((u64_mod - 2 ^ 31 - 2 ^ 11 ≤ d) × (d < u64_mod))

sar-field : (d : ℕ) → d < u64_mod → field 0 20 (sar d 12) ≡ field 12 20 d
sar-field d h = ground arith

hi20-field : (d : ℕ) → field 0 20 (hi20 d) ≡ field 12 20 (d + 2048)
unfolding hi20
hi20-field d = ground (arith, sar-field (wrapping_add d 0x800) (omega arith))

hi20-offset :
    (d : ℕ)
    → IsPairOffset d
    → sign_extend (field 12 20 (d + 2048) * 2 ^ 12) 32 ≡ wrapping_sub d (sign_extend d 12)
hi20-offset d (inl h) = ground arith
hi20-offset d (inr h) = ground arith

lo12-field : (d : ℕ) → d < u64_mod → field 0 12 (lo12 d) ≡ field 0 12 d
unfolding lo12 hi20
lo12-field d h = omega arith

-- A distance that a pair had, and a shorter one.
closer-IsPairOffset :
    (k m a b a' b' : ℕ)
    → k < 2 ^ 20
    → Moves a b a' b'
    → b ≡ wrapping_add (wrapping_add a (sign_extend (k * 2 ^ 12) 32)) (sign_extend m 12)
    → IsPairOffset (wrapping_sub b' a')
closer-IsPairOffset k m a b a' b' h moves e =
    let old : (b < a + (2 ^ 31 - 2 ^ 11)) × (a ≤ b + 2 ^ 31 + 2 ^ 11) =
      (ground arith, ground arith) in
    elim (Bool-cases (leb a' b')) [ inl le ↦ inl (ground arith) | inr gt ↦ inr (ground arith) ]

low_offset-low : (pw : ℕ) → (m : ℕ) × (low_offset pw ≡ sign_extend m 12)
unfolding low_offset s_type_imm i_type_imm
low_offset-low pw = elim (Bool-cases (is_store pw)) [
  | inl y ↦ (field 25 7 pw * 2 ^ 5 + field 7 5 pw, rw y refl)
  | inr n ↦ (field 20 12 pw, rw n refl)
]

with_hi20-auipc_offset :
    (aw d : ℕ)
    → (auipc_offset (with_hi20 aw d) ≡ sign_extend (field 12 20 (d + 2048) * 2 ^ 12) 32)
      × (field 0 12 (with_hi20 aw d) ≡ field 0 12 aw)
unfolding auipc_offset with_hi20
with_hi20-auipc_offset aw d =
    let e : field 12 20 (field 0 12 aw + field 0 20 (hi20 d) * 2 ^ 12) ≡ field 12 20 (d + 2048) =
      omega (arith, hi20-field d) in
    (rw e refl, omega arith)

-- What is read of the immediate that was written.
i_type_imm-encode :
    (w l : ℕ)
    → (i_type_imm (encode_i_type_imm w l) ≡ sign_extend l 12)
      × (field 0 20 (encode_i_type_imm w l) ≡ field 0 20 w)
unfolding i_type_imm encode_i_type_imm
i_type_imm-encode w l =
    let e : field 20 12 (field 0 20 w + field 0 12 l * 2 ^ 20) ≡ field 0 12 l = omega arith in
    (rw e (ground arith), omega arith)

s_type_fields :
    (k l p q : ℕ)
    → k < 2 ^ 13
    → l < 2 ^ 7
    → p < 2 ^ 7
    → q < 2 ^ 5
    → (let w = k * 2 ^ 12 + l + p * 2 ^ 25 + q * 2 ^ 7 in
        (field 25 7 w ≡ p) × (field 7 5 w ≡ q) × (field 0 7 w ≡ l) × (field 12 13 w ≡ k))
s_type_fields k l p q h h' h'' h''' = (omega arith, omega arith, omega arith, omega arith)

s_type_imm-encode :
    (w l : ℕ)
    → (s_type_imm (encode_s_type_imm w l) ≡ sign_extend l 12)
      × (field 0 7 (encode_s_type_imm w l) ≡ field 0 7 w)
unfolding s_type_imm encode_s_type_imm
s_type_imm-encode w l =
    let (e, e', kept, _) =
      s_type_fields (field 12 13 w) (field 0 7 w) (field 5 7 l) (field 0 5 l) (omega arith)
        (omega arith) (omega arith) (omega arith) in
    let whole : field 5 7 l * 2 ^ 5 + field 0 5 l ≡ field 0 12 l = omega arith in
    (rw (e, e') (rw whole (ground arith)), kept)

with_lo12-low_offset :
    (pw d : ℕ)
    → d < u64_mod
    → (low_offset (with_lo12 pw d) ≡ sign_extend d 12) × (field 0 7 (with_lo12 pw d) ≡ field 0 7 pw)
unfolding low_offset with_lo12
with_lo12-low_offset pw d h =
    let low : sign_extend (lo12 d) 12 ≡ sign_extend d 12 = ground (arith, lo12-field d h) in
    elim (Bool-cases (is_store pw)) [
      | inl y ↦
          let (read, kept) = s_type_imm-encode pw (lo12 d) in
          rw y (rw kept (rw y (read ∙ low, refl)))
      | inr n ↦
          let (read, kept) = i_type_imm-encode pw (lo12 d) in
          let op : field 0 7 (encode_i_type_imm pw (lo12 d)) ≡ field 0 7 pw = omega arith in
          rw n (rw op (rw n (read ∙ low, refl)))
    ]

-- A pair made for a distance that pairs can have names the address at that distance.
pair_target-made :
    (aw pw a' b' : ℕ)
    → a' < u64_mod
    → b' < u64_mod
    → IsPairOffset (wrapping_sub b' a')
    → pair_target a' (with_hi20 aw (wrapping_sub b' a')) (with_lo12 pw (wrapping_sub b' a')) ≡ b'
unfolding pair_target
pair_target-made aw pw a' b' ha hb h =
    let d = wrapping_sub b' a' in
    let (high, _) = with_hi20-auipc_offset aw d in
    let (low, _) = with_lo12-low_offset pw d (omega arith) in
    rw (high, low, hi20-offset d h) (ground arith)

pair-IsPairOffset :
    (aw pw a b a' b' : ℕ)
    → Moves a b a' b'
    → b ≡ pair_target a aw pw
    → IsPairOffset (wrapping_sub b' a')
unfolding pair_target auipc_offset
pair-IsPairOffset aw pw a b a' b' moves e =
    let (m, low) = low_offset-low pw in
    closer-IsPairOffset (field 12 20 aw) m a b a' b' (omega arith) moves (rw (← low) e)

pair_target-same :
    (aw pw a b a' b' : ℕ)
    → Moves a b a' b'
    → b ≡ pair_target a aw pw
    → a' + b ≡ b' + a
    → pair_target a' aw pw ≡ b'
unfolding pair_target
pair_target-same aw pw a b a' b' moves e same = ground arith

-- The two words after the patch.
abbrev pub new_pair : Option ℕ → ℕ → ℕ → ℕ × ℕ
new_pair none aw pw = (aw, pw)
new_pair (some offset) aw pw = (with_hi20 aw offset, with_lo12 pw offset)

-- A pair of words that names an address of .text names, after `do_patch_auipc_pair` and from the
-- new address of its AUIPC, the new address of what it named. The opcodes of both words, and the
-- register that AUIPC writes, are kept.
pub new_offset-pair_target :
    (r : Intervals) (ts te a aw pw : ℕ)
    → IsText r ts te
    → InText ts te a
    → InText ts te (pair_target a aw pw)
    → (let (aw', pw') = new_pair (new_offset r ts te a aw pw) aw pw in
        (pair_target (moved r ts te a) aw' pw' ≡ moved r ts te (pair_target a aw pw))
        × (field 0 12 aw' ≡ field 0 12 aw)
        × (field 0 7 pw' ≡ field 0 7 pw))
unfolding new_offset
new_offset-pair_target r ts te a aw pw text source target =
    let b = pair_target a aw pw in
    let new_a = moved r ts te a in
    let new_b = moved r ts te b in
    let moves : Moves a b new_a new_b = moved-Moves r ts te a b text source target in
    let d = wrapping_sub new_b new_a in
    retarget-elim r ts te a b text source target
      (λ (o : Option ℕ).
        let (aw', pw') = new_pair o aw pw in
        (pair_target new_a aw' pw' ≡ new_b)
        × (field 0 12 aw' ≡ field 0 12 aw)
        × (field 0 7 pw' ≡ field 0 7 pw))
      (λ new_addr new_target. wrapping_sub new_target new_addr)
      (λ same. (pair_target-same aw pw a b new_a new_b moves refl same, refl, refl))
      (
        pair_target-made aw pw new_a new_b (omega arith) (omega arith)
            (pair-IsPairOffset aw pw a b new_a new_b moves refl),
        (with_hi20-auipc_offset aw d).1,
        (with_lo12-low_offset pw d (omega arith)).1,
      )

-- ===== src/Arch/RiscV/Retarget.antt =====
-- src/arch/riscv_patch.rs: what the decoder reads in a patched branch.
use trim.Prelude.{
  ℕ, ◌+◌, ◌%◌, ◌^◌, true, false, ◌≡◌, refl, sym, ◌∙◌, arith, ◌==◌, ◌&&◌, ◌||◌, wrapping_add,
  wrapping_sub, All,
}
use trim.Types.{FlowType}
use trim.Patch.Relocs.{Intervals}
use trim.Arch.{field, sign_extend, moved, retarget}
use trim.Arch.Moved.{
  Moves, Aligned2, IsText, InText, patched, moved-Moves, moved-Aligned2, patched-retarget,
}
use trim.Arch.RiscV.{
  jal_imm, branch_imm, c_j_imm, c_branch_imm, jal_target, branch_target, c_j_target,
  c_branch_target, with_jal, with_branch, with_c_j, with_c_branch, branch_to, jal_flow,
  decode_rv_word, decode_compressed, patch_word, patch_half,
}
use trim.Arch.RiscV.Immediates.{
  jal_imm-encode, branch_imm-encode, c_j_imm-encode, c_branch_imm-encode,
}
use trim.Arch.RiscV.Kinds.{
  Kind, Kind-decode, decode-Kind, HalfKind, HalfKind-decode, decode-HalfKind,
}

-- A displacement that fitted fits again: two addresses that are no further apart are named by a
-- sign-extended field of the same width.
module _ (imm a b a' b' : ℕ) (moves : Moves a b a' b') where
  fits21 :
      b ≡ wrapping_add a (sign_extend imm 21)
      → wrapping_add a' (sign_extend (wrapping_sub b' a') 21) ≡ b'
  fits21 e = ground arith

  fits13 :
      b ≡ wrapping_add a (sign_extend imm 13)
      → wrapping_add a' (sign_extend (wrapping_sub b' a') 13) ≡ b'
  fits13 e = ground arith

  fits12 :
      b ≡ wrapping_add a (sign_extend imm 12)
      → wrapping_add a' (sign_extend (wrapping_sub b' a') 12) ≡ b'
  fits12 e = ground arith

  fits9 :
      b ≡ wrapping_add a (sign_extend imm 9)
      → wrapping_add a' (sign_extend (wrapping_sub b' a') 9) ≡ b'
  fits9 e = ground arith

-- The new words and half words lead to the new target, and their other fields are kept.
module _ (w a b a' b' : ℕ) (even : a' % 2 ≡ 0) (even' : b' % 2 ≡ 0) (moves : Moves a b a' b') where
  fresh_jal :
      b ≡ jal_target a w
      → (b' ≡ jal_target a' (with_jal w a' b')) × (field 0 12 (with_jal w a' b') ≡ field 0 12 w)
  unfolding jal_target with_jal jal_imm
  fresh_jal e =
      let (read, kept) =
        jal_imm-encode (field 0 12 w) (wrapping_sub b' a') (omega arith) (omega arith) in
      (sym (rw read (fits21 _ a b a' b' moves e)), kept)

  fresh_branch :
      b ≡ branch_target a w
      → (b' ≡ branch_target a' (with_branch w a' b'))
        × (field 0 7 (with_branch w a' b') ≡ field 0 7 w)
  unfolding branch_target with_branch branch_imm
  fresh_branch e =
      let (read, kept) =
        branch_imm-encode (field 12 13 w) (field 0 7 w) (wrapping_sub b' a') (omega arith)
          (omega arith) (omega arith) in
      (sym (rw read (fits13 _ a b a' b' moves e)), kept)

  fresh_c_j :
      b ≡ c_j_target a w
      → (b' ≡ c_j_target a' (with_c_j w a' b'))
        × (field 0 2 (with_c_j w a' b') ≡ field 0 2 w)
        × (field 13 3 (with_c_j w a' b') ≡ field 13 3 w)
  unfolding c_j_target with_c_j c_j_imm
  fresh_c_j e =
      let (read, low, high) =
        c_j_imm-encode (field 13 3 w) (field 0 2 w) (wrapping_sub b' a') (omega arith) (omega arith)
          (omega arith) in
      (sym (rw read (fits12 _ a b a' b' moves e)), low, high)

  fresh_c_branch :
      b ≡ c_branch_target a w
      → (b' ≡ c_branch_target a' (with_c_branch w a' b'))
        × (field 0 2 (with_c_branch w a' b') ≡ field 0 2 w)
        × (field 13 3 (with_c_branch w a' b') ≡ field 13 3 w)
  unfolding c_branch_target with_c_branch c_branch_imm
  fresh_c_branch e =
      let (read, low, high) =
        c_branch_imm-encode (field 13 3 w) (field 7 3 w) (field 0 2 w) (wrapping_sub b' a')
          (omega arith) (omega arith) (omega arith) (omega arith) in
      (sym (rw read (fits9 _ a b a' b' moves e)), low, high)

-- A displacement stays if source and target move alike.
same_target :
    (imm a b a' b' : ℕ)
    → Moves a b a' b'
    → b ≡ wrapping_add a imm
    → a' + b ≡ b' + a
    → b' ≡ wrapping_add a' imm
same_target imm a b a' b' moves e same = ground arith

even_target :
    (m n a b : ℕ)
    → 2 ^ n % 2 ≡ 0
    → m % 2 ^ n % 2 ≡ 0
    → a % 2 ≡ 0
    → b ≡ wrapping_add a (sign_extend m n)
    → b % 2 ≡ 0
even_target m n a b h h' ka e = ground arith

jal_flow-kept :
    (w x : ℕ)
    → field 0 12 x ≡ field 0 12 w
    → (field 0 7 x ≡ field 0 7 w) × (jal_flow x ≡ jal_flow w)
jal_flow-kept w x h = let e : field 7 5 x ≡ field 7 5 w = omega arith in (omega arith, rw e refl)

module _ (r : Intervals) (ts te a b w : ℕ) (flow : FlowType) (text : IsText r ts te)
    (aligned : All Aligned2 r) (source : InText ts te a) (target : InText ts te b)
    (at_half : a % 2 ≡ 0) where
  abbrev new_a : ℕ
  new_a = moved r ts te a

  abbrev new_b : ℕ
  new_b = moved r ts te b

  moves : Moves a b new_a new_b
  moves = moved-Moves r ts te a b text source target

  source2 : new_a % 2 ≡ 0
  source2 = moved-Aligned2 r ts te a text source aligned at_half

  target2 :
      (m n : ℕ)
      → 2 ^ n % 2 ≡ 0
      → m % 2 ^ n % 2 ≡ 0
      → b ≡ wrapping_add a (sign_extend m n)
      → new_b % 2 ≡ 0
  target2 m n h h' e =
      moved-Aligned2 r ts te b text target aligned (even_target m n a b h h' at_half e)

  made_jal :
      b ≡ jal_target a w
      → (new_b ≡ jal_target new_a (with_jal w new_a new_b))
        × (field 0 12 (with_jal w new_a new_b) ≡ field 0 12 w)
  unfolding jal_target jal_imm
  made_jal e = fresh_jal w a b new_a new_b source2 (target2 _ 21 refl (omega arith) e) moves e

  made_branch :
      b ≡ branch_target a w
      → (new_b ≡ branch_target new_a (with_branch w new_a new_b))
        × (field 0 7 (with_branch w new_a new_b) ≡ field 0 7 w)
  unfolding branch_target branch_imm
  made_branch e = fresh_branch w a b new_a new_b source2 (target2 _ 13 refl (omega arith) e) moves e

  made_c_j :
      b ≡ c_j_target a w
      → (new_b ≡ c_j_target new_a (with_c_j w new_a new_b))
        × (field 0 2 (with_c_j w new_a new_b) ≡ field 0 2 w)
        × (field 13 3 (with_c_j w new_a new_b) ≡ field 13 3 w)
  unfolding c_j_target c_j_imm
  made_c_j e = fresh_c_j w a b new_a new_b source2 (target2 _ 12 refl (omega arith) e) moves e

  made_c_branch :
      b ≡ c_branch_target a w
      → (new_b ≡ c_branch_target new_a (with_c_branch w new_a new_b))
        × (field 0 2 (with_c_branch w new_a new_b) ≡ field 0 2 w)
        × (field 13 3 (with_c_branch w new_a new_b) ≡ field 13 3 w)
  unfolding c_branch_target c_branch_imm
  made_c_branch e =
      fresh_c_branch w a b new_a new_b source2 (target2 _ 9 refl (omega arith) e) moves e

  patch_word-Kind : Kind a w flow b → Kind new_a (patched (patch_word r ts te a w) w) flow new_b
  unfolding patch_word jal_target branch_target
  patch_word-Kind (Kind.jal h f e) =
      let (to, low) = made_jal e in
      let (op, same_flow) = jal_flow-kept w (with_jal w new_a new_b) low in
      rw (h, sym e)
        (patched-retarget r ts te a b text source target (λ x. Kind new_a x flow new_b) w
          (with_jal w) (λ same. Kind.jal h f (same_target (jal_imm w) a b new_a new_b moves e same))
          (Kind.jal (op ∙ h) (f ∙ sym same_flow) to))
  patch_word-Kind (Kind.branch h f e) =
      let (to, low) = made_branch e in
      rw (h, sym e)
        (patched-retarget r ts te a b text source target (λ x. Kind new_a x flow new_b) w
          (with_branch w)
          (λ same. Kind.branch h f (same_target (branch_imm w) a b new_a new_b moves e same))
          (Kind.branch (low ∙ h) f to))

  -- A jump or conditional branch that the decoder finds in a word of .text, to a target in .text,
  -- is still a branch of the same flow after `patch_one_32`, and from the word's new address it
  -- leads to the target's new address. The word and the dead intervals start and end at even
  -- addresses.
  pub patch_word-decode_rv_word :
      decode_rv_word a w ≡ branch_to flow b
      → decode_rv_word new_a (patched (patch_word r ts te a w) w) ≡ branch_to flow new_b
  patch_word-decode_rv_word h =
      Kind-decode new_a (patched (patch_word r ts te a w) w) flow new_b
        (patch_word-Kind (decode-Kind a w flow b h))

  by-HalfKind :
      (encode : ℕ → ℕ → ℕ)
      → (new_a + b ≡ new_b + a → HalfKind new_a w flow new_b)
      → HalfKind new_a (encode new_a new_b) flow new_b
      → HalfKind new_a (patched (retarget r ts te a b encode) w) flow new_b
  by-HalfKind encode =
      patched-retarget r ts te a b text source target (λ x. HalfKind new_a x flow new_b) w encode

  patch_half-HalfKind :
      HalfKind a w flow b → HalfKind new_a (patched (patch_half r ts te a w) w) flow new_b
  unfolding patch_half c_j_target c_branch_target
  patch_half-HalfKind (HalfKind.jump h f e) =
      let (to, low, high) = made_c_j e in
      let test : (field 0 2 w == 1 && (field 13 3 w == 5 || field 13 3 w == 1)) ≡ true =
        ground arith in
      rw (test, sym e)
        (by-HalfKind (with_c_j w)
          (λ same. HalfKind.jump h f (same_target (c_j_imm w) a b new_a new_b moves e same))
          (HalfKind.jump (rw (low, high) h) f to))
  patch_half-HalfKind (HalfKind.link h f e) =
      let (to, low, high) = made_c_j e in
      let test : (field 0 2 w == 1 && (field 13 3 w == 5 || field 13 3 w == 1)) ≡ true =
        ground arith in
      rw (test, sym e)
        (by-HalfKind (with_c_j w)
          (λ same. HalfKind.link h f (same_target (c_j_imm w) a b new_a new_b moves e same))
          (HalfKind.link (rw (low, high) h) f to))
  patch_half-HalfKind (HalfKind.branch h f e) =
      let (to, low, high) = made_c_branch e in
      let test : (field 0 2 w == 1 && (field 13 3 w == 5 || field 13 3 w == 1)) ≡ false =
        ground arith in
      rw (test, h, sym e)
        (by-HalfKind (with_c_branch w)
          (λ same. HalfKind.branch h f (same_target (c_branch_imm w) a b new_a new_b moves e same))
          (HalfKind.branch (rw (low, high) h) f to))

  -- The same for a compressed instruction and `patch_one_16`: a jump, a call or a conditional
  -- branch to a target in .text leads from its new address to the target's new address.
  pub patch_half-decode_compressed :
      decode_compressed a w ≡ branch_to flow b
      → decode_compressed new_a (patched (patch_half r ts te a w) w) ≡ branch_to flow new_b
  patch_half-decode_compressed h =
      HalfKind-decode new_a (patched (patch_half r ts te a w) w) flow new_b
        (patch_half-HalfKind (decode-HalfKind a w flow b h))

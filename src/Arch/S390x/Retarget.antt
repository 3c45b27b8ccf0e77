-- ===== src/Arch/S390x/Retarget.antt =====
-- src/arch/s390x_patch.rs: what the decoder reads in a patched instruction.
use trim.Prelude.{
  ℕ, ◌%◌, true, List, [], ◌∷◌, ◌++◌, some, ◌≡◌, ◌≢◌, refl, sym, subst, arith, ◌==◌, ◌||◌, All, take,
  length,
}
use trim.Types.{FlowType, Endian}
use trim.Types.Pointer.{decode_bytes, to_le_bytes, from_le_bytes}
use trim.Patch.Relocs.{Intervals}
use trim.Arch.{field, moved}
use trim.Arch.Moved.{Moves, Aligned2, IsText, InText, moved-Moves, moved-Aligned2}
use trim.Arch.S390x.{
  halfword_target, decode_relative, decode_2byte, decode_bcr, decode_basr, decode_4byte,
  decode_6byte, decode_s390x_instr, new_bytes, patch_imm,
}

relative-target :
    (op4 mask target : ℕ) (flow : FlowType) (b : ℕ)
    → decode_relative op4 mask target ≡ (b ∷ [], flow)
    → (b ≡ target)
      × ((op4 == 4 || op4 == 5) ≡ true)
      × ((t : ℕ) → decode_relative op4 mask t ≡ (t ∷ [], flow))
unfolding decode_relative
relative-target op4 mask target flow b h = (ground arith, ground arith, λ t. ground arith)

short-no_branch : (x y : ℕ) (flow : FlowType) (b : ℕ) → decode_2byte x y ≢ (b ∷ [], flow)
unfolding decode_2byte decode_bcr decode_basr
short-no_branch x y flow b = ground arith

module _ (imm a b a' b' : ℕ) where
  fresh16 :
      a' % 2 ≡ 0
      → b' % 2 ≡ 0
      → b ≡ halfword_target a 16 imm
      → Moves a b a' b'
      → halfword_target a' 16 (decode_bytes Endian.big (new_bytes 2 a' b')) ≡ b'
  unfolding new_bytes to_le_bytes from_le_bytes
  fresh16 ka kb e moves = ground arith

  fresh32 :
      a' % 2 ≡ 0
      → b' % 2 ≡ 0
      → b ≡ halfword_target a 32 imm
      → Moves a b a' b'
      → halfword_target a' 32 (decode_bytes Endian.big (new_bytes 4 a' b')) ≡ b'
  unfolding new_bytes to_le_bytes from_le_bytes
  fresh32 ka kb e moves = ground arith

patch_imm4 :
    (w x y z a' b' : ℕ)
    → (w == 0xa7) ≡ true
    → (field 0 4 x == 4 || field 0 4 x == 5) ≡ true
    → patch_imm 0 (w ∷ x ∷ y ∷ z ∷ []) a' b' (w ∷ x ∷ y ∷ z ∷ [])
      ≡ some (w ∷ x ∷ (new_bytes 2 a' b' ++ []))
unfolding patch_imm
patch_imm4 w x y z a' b' h k = ground arith

patch_imm6 :
    (w x y z u v a' b' : ℕ)
    → (w == 0xc0) ≡ true
    → (field 0 4 x == 4 || field 0 4 x == 5) ≡ true
    → patch_imm 0 (w ∷ x ∷ y ∷ z ∷ u ∷ v ∷ []) a' b' (w ∷ x ∷ y ∷ z ∷ u ∷ v ∷ [])
      ≡ some (w ∷ x ∷ (new_bytes 4 a' b' ++ []))
unfolding patch_imm
patch_imm6 w x y z u v a' b' h k = ground arith

four-relative :
    (a w x imm : ℕ) (flow : FlowType) (b : ℕ)
    → decode_4byte a w x imm ≡ (b ∷ [], flow)
    → ((w == 0xa7) ≡ true)
      × (decode_relative (field 0 4 x) (field 4 4 x) (halfword_target a 16 imm) ≡ (b ∷ [], flow))
unfolding decode_4byte
four-relative a w x imm flow b h = (ground arith, ground arith)

six-relative :
    (a w x imm : ℕ) (flow : FlowType) (b : ℕ)
    → decode_6byte a w x imm ≡ (b ∷ [], flow)
    → ((w == 0xc0) ≡ true)
      × (decode_relative (field 0 4 x) (field 4 4 x) (halfword_target a 32 imm) ≡ (b ∷ [], flow))
unfolding decode_6byte
six-relative a w x imm flow b h = (ground arith, ground arith)

relative-four :
    (a w x imm : ℕ) (flow : FlowType) (b : ℕ)
    → (w == 0xa7) ≡ true
    → decode_relative (field 0 4 x) (field 4 4 x) (halfword_target a 16 imm) ≡ (b ∷ [], flow)
    → decode_4byte a w x imm ≡ (b ∷ [], flow)
unfolding decode_4byte
relative-four a w x imm flow b h k = rw h k

relative-six :
    (a w x imm : ℕ) (flow : FlowType) (b : ℕ)
    → (w == 0xc0) ≡ true
    → decode_relative (field 0 4 x) (field 4 4 x) (halfword_target a 32 imm) ≡ (b ∷ [], flow)
    → decode_6byte a w x imm ≡ (b ∷ [], flow)
unfolding decode_6byte
relative-six a w x imm flow b h k = rw h k

-- What the patch makes of an instruction's bytes: as many, with the same opcode and mask, and the
-- decoder reads the moved target.
abbrev pub Retargeted : ℕ → ℕ → List ℕ → FlowType → Type 0
Retargeted a' b' raw flow =
    (raw' : List ℕ) × (patch_imm 0 raw a' b' raw ≡ some raw')
    × (length raw' ≡ length raw)
    × (take 2 raw' ≡ take 2 raw)
    × (decode_s390x_instr a' raw' ≡ (b' ∷ [], flow))

module _ (a b a' b' : ℕ) (flow : FlowType) (moves : Moves a b a' b') (even_a : a' % 2 ≡ 0)
    (even_b : b % 2 ≡ 0 → b' % 2 ≡ 0) (at_even : a % 2 ≡ 0) where
  even16 : (imm : ℕ) → b ≡ halfword_target a 16 imm → b % 2 ≡ 0
  even16 imm e = ground arith

  even32 : (imm : ℕ) → b ≡ halfword_target a 32 imm → b % 2 ≡ 0
  even32 imm e = ground arith

  retargeted4 :
      (w x y z : ℕ)
      → decode_s390x_instr a (w ∷ x ∷ y ∷ z ∷ []) ≡ (b ∷ [], flow)
      → Retargeted a' b' (w ∷ x ∷ y ∷ z ∷ []) flow
  unfolding decode_s390x_instr new_bytes to_le_bytes
  retargeted4 w x y z h =
      let imm = decode_bytes Endian.big (y ∷ z ∷ []) in
      let imm' = decode_bytes Endian.big (new_bytes 2 a' b') in
      let (op, inner) = four-relative a w x imm flow b h in
      let (at_b, kind, again) =
        relative-target (field 0 4 x) (field 4 4 x) (halfword_target a 16 imm) flow b inner in
      let there = fresh16 imm a b a' b' even_a (even_b (even16 imm at_b)) at_b moves in
      (
        w ∷ x ∷ new_bytes 2 a' b',
        patch_imm4 w x y z a' b' op kind,
        refl,
        refl,
        relative-four a' w x imm' flow b' op (
            subst (λ (t : ℕ). decode_relative (field 0 4 x) (field 4 4 x) t ≡ (b' ∷ [], flow))
              (sym there) (again b')),
      )

  retargeted6 :
      (w x y z u v : ℕ)
      → decode_s390x_instr a (w ∷ x ∷ y ∷ z ∷ u ∷ v ∷ []) ≡ (b ∷ [], flow)
      → Retargeted a' b' (w ∷ x ∷ y ∷ z ∷ u ∷ v ∷ []) flow
  unfolding decode_s390x_instr new_bytes to_le_bytes
  retargeted6 w x y z u v h =
      let imm = decode_bytes Endian.big (y ∷ z ∷ u ∷ v ∷ []) in
      let imm' = decode_bytes Endian.big (new_bytes 4 a' b') in
      let (op, inner) = six-relative a w x imm flow b h in
      let (at_b, kind, again) =
        relative-target (field 0 4 x) (field 4 4 x) (halfword_target a 32 imm) flow b inner in
      let there = fresh32 imm a b a' b' even_a (even_b (even32 imm at_b)) at_b moves in
      (
        w ∷ x ∷ new_bytes 4 a' b',
        patch_imm6 w x y z u v a' b' op kind,
        refl,
        refl,
        relative-six a' w x imm' flow b' op (
            subst (λ (t : ℕ). decode_relative (field 0 4 x) (field 4 4 x) t ≡ (b' ∷ [], flow))
              (sym there) (again b')),
      )

  retargeted :
      (raw : List ℕ) → decode_s390x_instr a raw ≡ (b ∷ [], flow) → Retargeted a' b' raw flow
  unfolding decode_s390x_instr
  retargeted [] h = ground arith
  retargeted (w ∷ []) h = ground arith
  retargeted (w ∷ x ∷ []) h = absurd (short-no_branch w x flow b h)
  retargeted (w ∷ x ∷ y ∷ []) h = ground arith
  retargeted (w ∷ x ∷ y ∷ z ∷ []) h = retargeted4 w x y z h
  retargeted (w ∷ x ∷ y ∷ z ∷ u ∷ []) h = ground arith
  retargeted (w ∷ x ∷ y ∷ z ∷ u ∷ v ∷ []) h = retargeted6 w x y z u v h
  retargeted (w ∷ x ∷ y ∷ z ∷ u ∷ v ∷ t ∷ more) h = ground arith

-- A relative branch that the decoder finds in an instruction of .text, to a target in .text: run on
-- the instruction's own bytes, `patch_imm` keeps their number and the first two of them, and from
-- the instruction's new address the decoder reads the same flow and the target's new address. The
-- dead intervals start and end at even addresses, as the instruction does.
pub patch_imm-decode_s390x_instr :
    (r : Intervals) (ts te a b : ℕ) (raw : List ℕ) (flow : FlowType)
    → IsText r ts te
    → All Aligned2 r
    → InText ts te a
    → InText ts te b
    → a % 2 ≡ 0
    → decode_s390x_instr a raw ≡ (b ∷ [], flow)
    → Retargeted (moved r ts te a) (moved r ts te b) raw flow
patch_imm-decode_s390x_instr r ts te a b raw flow text aligned source target even h =
    retargeted a b (moved r ts te a) (moved r ts te b) flow
      (moved-Moves r ts te a b text source target)
      (moved-Aligned2 r ts te a text source aligned even)
      (moved-Aligned2 r ts te b text target aligned) even raw h

-- ===== src/Arch/Arm32/Retarget.antt =====
-- src/arch/arm32_patch.rs: what the decoder reads in a patched word.
use trim.Prelude.{
  ℕ, ◌+◌, ◌/◌, ◌%◌, ◌^◌, ◌<◌, true, false, [], ◌∷◌, none, ◌≡◌, sym, arith, ◌==◌, if◌then◌else◌, All,
  Bool-cases, inl, inr,
}
use trim.Types.{FlowType}
use trim.Patch.Relocs.{Intervals}
use trim.Arch.{field, moved, retarget}
use trim.Arch.Moved.{
  Moves, Aligned2, Aligned4, moved-Aligned2, IsText, InText, patched, moved-Moves, moved-Aligned4,
  patched-retarget,
}
use trim.Arch.Arm32.{
  blx_target, b_target, is_blx, is_b_bl, with_blx, with_imm24, decode_arm32_word, decode_arm32_b_bl,
  patch_word,
}

-- The flow of B and BL, from the condition and the link bit.
abbrev pub b_flow : ℕ → FlowType
b_flow w =
    if field 24 1 w == 1
    then FlowType.call
    else if field 28 4 w == 0xe
    then FlowType.unconditional_branch
    else FlowType.conditional_branch

-- BLX, and B and BL.
pub data Kind (a w : ℕ) (flow : FlowType) (b : ℕ) : Type 0 where
  exchange : is_blx w ≡ true → flow ≡ FlowType.call → b ≡ blx_target a w → Kind a w flow b
  branch : is_b_bl w ≡ true → flow ≡ b_flow w → b ≡ b_target a w → Kind a w flow b

Kind-decode :
    (a w : ℕ) (flow : FlowType) (b : ℕ)
    → Kind a w flow b
    → decode_arm32_word a w ≡ (b ∷ [], none, flow)
unfolding decode_arm32_word decode_arm32_b_bl
Kind-decode a w flow b (Kind.exchange h f e) = ground arith
Kind-decode a w flow b (Kind.branch h f e) =
    let no : is_blx w ≡ false = ground arith in
    let no' : (field 4 24 w == 0x012f_ff10 / 2 ^ 4) ≡ false = ground arith in
    rw (no, no', h) (ground arith)

b_bl-Kind :
    (a w : ℕ) (flow : FlowType) (b : ℕ)
    → decode_arm32_b_bl a w ≡ (b ∷ [], none, flow)
    → Kind a w flow b
unfolding decode_arm32_b_bl
b_bl-Kind a w flow b h = Kind.branch (ground arith) (ground arith) (ground arith)

decode-Kind :
    (a w : ℕ) (flow : FlowType) (b : ℕ)
    → decode_arm32_word a w ≡ (b ∷ [], none, flow)
    → Kind a w flow b
unfolding decode_arm32_word
decode-Kind a w flow b h = elim (Bool-cases (is_blx w)) [
  | inl y ↦ Kind.exchange y (ground arith) (ground arith)
  | inr n ↦ b_bl-Kind a w flow b (ground arith)
]

module _ (w a b a' b' : ℕ) where
  fresh_blx :
      a' % 4 ≡ 0
      → b' % 2 ≡ 0
      → b ≡ blx_target a w
      → Moves a b a' b'
      → blx_target a' (with_blx w a' b') ≡ b'
  unfolding blx_target with_blx
  fresh_blx ka kb e moves = ground arith

  same_blx : a' + b ≡ b' + a → b ≡ blx_target a w → Moves a b a' b' → blx_target a' w ≡ b'
  unfolding blx_target
  same_blx same e moves = ground arith

  fresh24 :
      a' % 4 ≡ 0
      → b' % 4 ≡ 0
      → b ≡ b_target a w
      → Moves a b a' b'
      → b_target a' (with_imm24 w a' b') ≡ b'
  unfolding b_target with_imm24
  fresh24 ka kb e moves = ground arith

  same24 : a' + b ≡ b' + a → b ≡ b_target a w → Moves a b a' b' → b_target a' w ≡ b'
  unfolding b_target
  same24 same e moves = ground arith

with_blx-kept : (w a' b' : ℕ) → w < 2 ^ 32 → field 25 7 (with_blx w a' b') ≡ field 25 7 w
unfolding with_blx
with_blx-kept w a' b' h = omega arith

with_imm24-kept : (w a' b' : ℕ) → w < 2 ^ 32 → field 24 8 (with_imm24 w a' b') ≡ field 24 8 w
unfolding with_imm24
with_imm24-kept w a' b' h = omega arith

-- Both ends of an interval that are multiples of 4 are multiples of 2.
All-Aligned2 : (r : Intervals) → All Aligned4 r → All Aligned2 r
All-Aligned2 [] h = tt
All-Aligned2 ((s, e) ∷ r) h = (omega arith, All-Aligned2 r h.1)

module _ (r : Intervals) (ts te a b w : ℕ) (flow : FlowType) (text : IsText r ts te)
    (aligned : All Aligned4 r) (source : InText ts te a) (target : InText ts te b)
    (at_word : a % 4 ≡ 0) (word : w < 2 ^ 32) where
  abbrev new_a : ℕ
  new_a = moved r ts te a

  abbrev new_b : ℕ
  new_b = moved r ts te b

  moves : Moves a b new_a new_b
  moves = moved-Moves r ts te a b text source target

  source4 : new_a % 4 ≡ 0
  source4 = moved-Aligned4 r ts te a text source aligned at_word

  made_blx : b ≡ blx_target a w → blx_target new_a (with_blx w new_a new_b) ≡ new_b
  unfolding blx_target
  made_blx e =
      fresh_blx w a b new_a new_b source4
        (moved-Aligned2 r ts te b text target (All-Aligned2 r aligned) (ground arith)) e moves

  made24 : b ≡ b_target a w → b_target new_a (with_imm24 w new_a new_b) ≡ new_b
  unfolding b_target
  made24 e =
      fresh24 w a b new_a new_b source4
        (moved-Aligned4 r ts te b text target aligned (ground arith)) e moves

  by-Kind :
      (encode : ℕ → ℕ → ℕ)
      → (new_a + b ≡ new_b + a → Kind new_a w flow new_b)
      → Kind new_a (encode new_a new_b) flow new_b
      → Kind new_a (patched (retarget r ts te a b encode) w) flow new_b
  by-Kind encode =
      patched-retarget r ts te a b text source target (λ x. Kind new_a x flow new_b) w encode

  patch_word-Kind : Kind a w flow b → Kind new_a (patched (patch_word r ts te a w) w) flow new_b
  unfolding patch_word
  patch_word-Kind (Kind.exchange h f e) =
      let kept = with_blx-kept w new_a new_b word in
      rw (h, sym e)
        (by-Kind (with_blx w)
          (λ same. Kind.exchange h f (sym (same_blx w a b new_a new_b same e moves)))
          (Kind.exchange (ground arith) f (sym (made_blx e))))
  patch_word-Kind (Kind.branch h f e) =
      let kept = with_imm24-kept w new_a new_b word in
      let no : is_blx w ≡ false = ground arith in
      rw (no, h, sym e)
        (by-Kind (with_imm24 w)
          (λ same. Kind.branch h f (sym (same24 w a b new_a new_b same e moves)))
          (Kind.branch (ground arith) (ground arith) (sym (made24 e))))

  -- A branch that the decoder finds in a word of .text, to a target in .text, has the same flow
  -- after the patch, and from the word's new address it leads to the target's new address. The dead
  -- intervals start and end at multiples of 4, as the word does; the target of BLX need not.
  pub patch_word-decode_arm32_word :
      decode_arm32_word a w ≡ (b ∷ [], none, flow)
      → decode_arm32_word new_a (patched (patch_word r ts te a w) w) ≡ (new_b ∷ [], none, flow)
  patch_word-decode_arm32_word h =
      Kind-decode new_a (patched (patch_word r ts te a w) w) flow new_b
        (patch_word-Kind (decode-Kind a w flow b h))

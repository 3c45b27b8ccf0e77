-- ===== src/Arch/Aarch64/Retarget.antt =====
-- src/arch/aarch64_patch.rs: what the decoder reads in a patched word.
use trim.Prelude.{ℕ, ◌+◌, ◌%◌, ◌^◌, ◌<◌, true, false, ◌≡◌, arith, ◌==◌, ◌||◌, All, ◌∙◌, sym}
use trim.Types.{FlowType}
use trim.Patch.Relocs.{Intervals}
use trim.Arch.{field, moved, retarget}
use trim.Arch.Moved.{
  Moves, Aligned4, IsText, InText, patched, moved-Moves, moved-Aligned4, patched-retarget,
}
use trim.Arch.Aarch64.Kinds.{Kind, Kind-decode, decode-Kind}
use trim.Arch.Aarch64.{
  branch26_target, with_imm26, branch19_target, with_imm19, branch14_target, with_imm14, is_b_cond,
  is_cbz, decode_a64_word, patch_word, branch_to,
}

with_imm26-target :
    (w a b a' b' : ℕ)
    → a' % 4 ≡ 0
    → b' % 4 ≡ 0
    → b ≡ branch26_target a w
    → Moves a b a' b'
    → branch26_target a' (with_imm26 w a' b') ≡ b'
unfolding branch26_target with_imm26
with_imm26-target w a b a' b' ka kb e moves = ground arith

with_imm19-target :
    (w a b a' b' : ℕ)
    → a' % 4 ≡ 0
    → b' % 4 ≡ 0
    → b ≡ branch19_target a w
    → Moves a b a' b'
    → branch19_target a' (with_imm19 w a' b') ≡ b'
unfolding branch19_target with_imm19
with_imm19-target w a b a' b' ka kb e moves = ground arith

with_imm14-target :
    (w a b a' b' : ℕ)
    → a' % 4 ≡ 0
    → b' % 4 ≡ 0
    → b ≡ branch14_target a w
    → Moves a b a' b'
    → branch14_target a' (with_imm14 w a' b') ≡ b'
unfolding branch14_target with_imm14
with_imm14-target w a b a' b' ka kb e moves = ground arith

-- A branch keeps its opcode and its other operands.
with_imm26-kept : (w a' b' : ℕ) → w < 2 ^ 32 → field 26 6 (with_imm26 w a' b') ≡ field 26 6 w
unfolding with_imm26
with_imm26-kept w a' b' h = omega arith

with_imm19-kept :
    (w a' b' : ℕ)
    → w < 2 ^ 32
    → (field 24 8 (with_imm19 w a' b') ≡ field 24 8 w)
      × (field 0 5 (with_imm19 w a' b') ≡ field 0 5 w)
unfolding with_imm19
with_imm19-kept w a' b' h = omega arith

with_imm14-kept :
    (w a' b' : ℕ)
    → w < 2 ^ 32
    → (field 19 13 (with_imm14 w a' b') ≡ field 19 13 w)
      × (field 0 5 (with_imm14 w a' b') ≡ field 0 5 w)
unfolding with_imm14
with_imm14-kept w a' b' h = omega arith

-- A branch that moves with its target needs no new word.
unmoved26 :
    (w a b a' b' : ℕ)
    → a' + b ≡ b' + a
    → b ≡ branch26_target a w
    → Moves a b a' b'
    → branch26_target a' w ≡ b'
unfolding branch26_target
unmoved26 w a b a' b' same e moves = ground arith

unmoved19 :
    (w a b a' b' : ℕ)
    → a' + b ≡ b' + a
    → b ≡ branch19_target a w
    → Moves a b a' b'
    → branch19_target a' w ≡ b'
unfolding branch19_target
unmoved19 w a b a' b' same e moves = ground arith

unmoved14 :
    (w a b a' b' : ℕ)
    → a' + b ≡ b' + a
    → b ≡ branch14_target a w
    → Moves a b a' b'
    → branch14_target a' w ≡ b'
unfolding branch14_target
unmoved14 w a b a' b' same e moves = ground arith

module _ (r : Intervals) (ts te a b w : ℕ) (flow : FlowType) (text : IsText r ts te)
    (aligned : All Aligned4 r) (source : InText ts te a) (target : InText ts te b)
    (at_word : a % 4 ≡ 0) (word : w < 2 ^ 32) where
  abbrev Patched : (ℕ → ℕ → ℕ) → Type 0
  Patched encode =
      Kind (moved r ts te a) (patched (retarget r ts te a b encode) w) flow (moved r ts te b)

  by-Kind :
      (encode : ℕ → ℕ → ℕ)
      → (moved r ts te a + b ≡ moved r ts te b + a
          → Kind (moved r ts te a) w flow (moved r ts te b))
      → Kind (moved r ts te a) (encode (moved r ts te a) (moved r ts te b)) flow (moved r ts te b)
      → Patched encode
  by-Kind encode =
      patched-retarget r ts te a b text source target
        (λ x. Kind (moved r ts te a) x flow (moved r ts te b)) w encode

  moves : Moves a b (moved r ts te a) (moved r ts te b)
  moves = moved-Moves r ts te a b text source target

  source4 : moved r ts te a % 4 ≡ 0
  source4 = moved-Aligned4 r ts te a text source aligned at_word

  target4 : b % 4 ≡ 0 → moved r ts te b % 4 ≡ 0
  target4 h = moved-Aligned4 r ts te b text target aligned h

  fresh26 :
      b ≡ branch26_target a w
      → branch26_target (moved r ts te a) (with_imm26 w (moved r ts te a) (moved r ts te b))
        ≡ moved r ts te b
  unfolding branch26_target
  fresh26 e =
      with_imm26-target w a b (moved r ts te a) (moved r ts te b) source4 (target4 (ground arith)) e
        moves

  fresh19 :
      b ≡ branch19_target a w
      → branch19_target (moved r ts te a) (with_imm19 w (moved r ts te a) (moved r ts te b))
        ≡ moved r ts te b
  unfolding branch19_target
  fresh19 e =
      with_imm19-target w a b (moved r ts te a) (moved r ts te b) source4 (target4 (ground arith)) e
        moves

  fresh14 :
      b ≡ branch14_target a w
      → branch14_target (moved r ts te a) (with_imm14 w (moved r ts te a) (moved r ts te b))
        ≡ moved r ts te b
  unfolding branch14_target
  fresh14 e =
      with_imm14-target w a b (moved r ts te a) (moved r ts te b) source4 (target4 (ground arith)) e
        moves

  -- The new word, or the old one, is a branch of the same kind to the moved target.
  patch_word-Kind :
      Kind a w flow b
      → Kind (moved r ts te a) (patched (patch_word r ts te a w) w) flow (moved r ts te b)
  unfolding patch_word
  patch_word-Kind (Kind.jump h f e) =
      let kept = with_imm26-kept w (moved r ts te a) (moved r ts te b) word in
      let test : (field 26 6 w == 5 || field 26 6 w == 0x25) ≡ true = ground arith in
      rw (test, sym e)
        (by-Kind (with_imm26 w)
          (λ same.
            Kind.jump h f (sym (unmoved26 w a b (moved r ts te a) (moved r ts te b) same e moves)))
          (Kind.jump (kept ∙ h) f (sym (fresh26 e))))
  patch_word-Kind (Kind.call h f e) =
      let kept = with_imm26-kept w (moved r ts te a) (moved r ts te b) word in
      let test : (field 26 6 w == 5 || field 26 6 w == 0x25) ≡ true = ground arith in
      rw (test, sym e)
        (by-Kind (with_imm26 w)
          (λ same.
            Kind.call h f (sym (unmoved26 w a b (moved r ts te a) (moved r ts te b) same e moves)))
          (Kind.call (kept ∙ h) f (sym (fresh26 e))))
  patch_word-Kind (Kind.conditional19 h f e) =
      let (top, low) = with_imm19-kept w (moved r ts te a) (moved r ts te b) word in
      let test : (field 26 6 w == 5 || field 26 6 w == 0x25) ≡ false = ground arith in
      rw (test, h, sym e)
        (by-Kind (with_imm19 w)
          (λ same.
            Kind.conditional19 h f
              (sym (unmoved19 w a b (moved r ts te a) (moved r ts te b) same e moves)))
          (Kind.conditional19 (ground arith) f (sym (fresh19 e))))
  patch_word-Kind (Kind.conditional14 h f e) =
      let (top, low) = with_imm14-kept w (moved r ts te a) (moved r ts te b) word in
      let test : (field 26 6 w == 5 || field 26 6 w == 0x25) ≡ false = ground arith in
      let test' : (is_b_cond w || is_cbz w) ≡ false = ground arith in
      rw (test, test', h, sym e)
        (by-Kind (with_imm14 w)
          (λ same.
            Kind.conditional14 h f
              (sym (unmoved14 w a b (moved r ts te a) (moved r ts te b) same e moves)))
          (Kind.conditional14 (ground arith) f (sym (fresh14 e))))

  -- A branch that the decoder finds in a word of .text, to a target in .text, is still a branch of
  -- the same flow after the patch, and from the word's new address it leads to the target's new
  -- address: the new offset always fits the instruction. The intervals are multiples of the
  -- instruction size.
  pub patch_word-decode_a64_word :
      decode_a64_word a w ≡ branch_to flow b
      → decode_a64_word (moved r ts te a) (patched (patch_word r ts te a w) w)
        ≡ branch_to flow (moved r ts te b)
  patch_word-decode_a64_word h =
      Kind-decode (moved r ts te a) (patched (patch_word r ts te a w) w) flow (moved r ts te b)
        (patch_word-Kind (decode-Kind a w flow b h))

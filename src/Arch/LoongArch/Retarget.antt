-- ===== src/Arch/LoongArch/Retarget.antt =====
-- src/arch/loongarch_patch.rs: what the decoder reads in a patched branch.
use trim.Prelude.{ℕ, ◌+◌, ◌%◌, ◌^◌, ◌<◌, true, false, ◌≡◌, sym, ◌∙◌, arith, ◌==◌, ◌||◌, All}
use trim.Types.{FlowType}
use trim.Patch.Relocs.{Intervals}
use trim.Arch.{field, moved, retarget}
use trim.Arch.Moved.{
  Moves, Aligned4, IsText, InText, patched, moved-Moves, moved-Aligned4, patched-retarget,
}
use trim.Arch.LoongArch.{
  i26_target, i16_target, i21_target, with_i26, with_i16, with_i21, is_i16, branch_to,
  decode_la_word, patch_branch,
}
use trim.Arch.LoongArch.Kinds.{Kind, Kind-decode, decode-Kind}

module _ (w a b a' b' : ℕ) where
  fresh26 :
      a' % 4 ≡ 0
      → b' % 4 ≡ 0
      → b ≡ i26_target a w
      → Moves a b a' b'
      → i26_target a' (with_i26 w a' b') ≡ b'
  unfolding i26_target with_i26
  fresh26 ka kb e moves = ground arith

  fresh16 :
      a' % 4 ≡ 0
      → b' % 4 ≡ 0
      → b ≡ i16_target a w
      → Moves a b a' b'
      → i16_target a' (with_i16 w a' b') ≡ b'
  unfolding i16_target with_i16
  fresh16 ka kb e moves = ground arith

  fresh21 :
      a' % 4 ≡ 0
      → b' % 4 ≡ 0
      → b ≡ i21_target a w
      → Moves a b a' b'
      → i21_target a' (with_i21 w a' b') ≡ b'
  unfolding i21_target with_i21
  fresh21 ka kb e moves = ground arith

  same26 : a' + b ≡ b' + a → b ≡ i26_target a w → Moves a b a' b' → i26_target a' w ≡ b'
  unfolding i26_target
  same26 same e moves = ground arith

  same16 : a' + b ≡ b' + a → b ≡ i16_target a w → Moves a b a' b' → i16_target a' w ≡ b'
  unfolding i16_target
  same16 same e moves = ground arith

  same21 : a' + b ≡ b' + a → b ≡ i21_target a w → Moves a b a' b' → i21_target a' w ≡ b'
  unfolding i21_target
  same21 same e moves = ground arith

with_i26-kept : (w a' b' : ℕ) → w < 2 ^ 32 → field 26 6 (with_i26 w a' b') ≡ field 26 6 w
unfolding with_i26
with_i26-kept w a' b' h = omega arith

with_i16-kept : (w a' b' : ℕ) → w < 2 ^ 32 → field 26 6 (with_i16 w a' b') ≡ field 26 6 w
unfolding with_i16
with_i16-kept w a' b' h = omega arith

with_i21-kept : (w a' b' : ℕ) → w < 2 ^ 32 → field 26 6 (with_i21 w a' b') ≡ field 26 6 w
unfolding with_i21
with_i21-kept w a' b' h = omega arith

module _ (r : Intervals) (ts te a b w : ℕ) (flow : FlowType) (text : IsText r ts te)
    (aligned : All Aligned4 r) (source : InText ts te a) (target : InText ts te b)
    (at_word : a % 4 ≡ 0) (word : w < 2 ^ 32) where
  abbrev new_a : ℕ
  new_a = moved r ts te a

  abbrev new_b : ℕ
  new_b = moved r ts te b

  moves : Moves a b new_a new_b
  moves = moved-Moves r ts te a b text source target

  source4 : new_a % 4 ≡ 0
  source4 = moved-Aligned4 r ts te a text source aligned at_word

  target4 : b % 4 ≡ 0 → new_b % 4 ≡ 0
  target4 h = moved-Aligned4 r ts te b text target aligned h

  made26 : b ≡ i26_target a w → i26_target new_a (with_i26 w new_a new_b) ≡ new_b
  unfolding i26_target
  made26 e = fresh26 w a b new_a new_b source4 (target4 (ground arith)) e moves

  made16 : b ≡ i16_target a w → i16_target new_a (with_i16 w new_a new_b) ≡ new_b
  unfolding i16_target
  made16 e = fresh16 w a b new_a new_b source4 (target4 (ground arith)) e moves

  made21 : b ≡ i21_target a w → i21_target new_a (with_i21 w new_a new_b) ≡ new_b
  unfolding i21_target
  made21 e = fresh21 w a b new_a new_b source4 (target4 (ground arith)) e moves

  by-Kind :
      (encode : ℕ → ℕ → ℕ)
      → (new_a + b ≡ new_b + a → Kind new_a w flow new_b)
      → Kind new_a (encode new_a new_b) flow new_b
      → Kind new_a (patched (retarget r ts te a b encode) w) flow new_b
  by-Kind encode =
      patched-retarget r ts te a b text source target (λ x. Kind new_a x flow new_b) w encode

  patch_branch-Kind :
      Kind a w flow b → Kind new_a (patched (patch_branch r ts te a b w) w) flow new_b
  unfolding patch_branch
  patch_branch-Kind (Kind.jump h f e) =
      let kept = with_i26-kept w new_a new_b word in
      let test : (field 26 6 w == 0x14 || field 26 6 w == 0x15) ≡ true = ground arith in
      rw test (
        by-Kind (with_i26 w) (λ same. Kind.jump h f (sym (same26 w a b new_a new_b same e moves)))
          (Kind.jump (kept ∙ h) f (sym (made26 e))))
  patch_branch-Kind (Kind.call h f e) =
      let kept = with_i26-kept w new_a new_b word in
      let test : (field 26 6 w == 0x14 || field 26 6 w == 0x15) ≡ true = ground arith in
      rw test (
        by-Kind (with_i26 w) (λ same. Kind.call h f (sym (same26 w a b new_a new_b same e moves)))
          (Kind.call (kept ∙ h) f (sym (made26 e))))
  patch_branch-Kind (Kind.conditional16 h f e) =
      let kept = with_i16-kept w new_a new_b word in
      let test : (field 26 6 w == 0x14 || field 26 6 w == 0x15) ≡ false = ground arith in
      rw (test, h)
        (by-Kind (with_i16 w)
          (λ same. Kind.conditional16 h f (sym (same16 w a b new_a new_b same e moves)))
          (Kind.conditional16 (ground arith) f (sym (made16 e))))
  patch_branch-Kind (Kind.conditional21 h f e) =
      let kept = with_i21-kept w new_a new_b word in
      let test : (field 26 6 w == 0x14 || field 26 6 w == 0x15) ≡ false = ground arith in
      let test' : is_i16 (field 26 6 w) ≡ false = ground arith in
      rw (test, test', h)
        (by-Kind (with_i21 w)
          (λ same. Kind.conditional21 h f (sym (same21 w a b new_a new_b same e moves)))
          (Kind.conditional21 (ground arith) f (sym (made21 e))))

  -- A branch that the decoder finds in a word of .text, to a target in .text, is still a branch of
  -- the same flow after `patch_branch`, and from the word's new address it leads to the target's
  -- new address. The dead intervals start and end at multiples of 4, as the word does.
  pub patch_branch-decode_la_word :
      decode_la_word a w ≡ branch_to flow b
      → decode_la_word new_a (patched (patch_branch r ts te a b w) w) ≡ branch_to flow new_b
  patch_branch-decode_la_word h =
      Kind-decode new_a (patched (patch_branch r ts te a b w) w) flow new_b
        (patch_branch-Kind (decode-Kind a w flow b h))

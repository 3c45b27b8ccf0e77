-- ===== src/Arch/Mips/Retarget.antt =====
-- src/arch/mips_patch.rs: what the decoder reads in a patched word.
use trim.Prelude.{
  ℕ, ◌+◌, ◌-◌, ◌/◌, ◌%◌, ◌^◌, ◌<◌, true, false, [], ◌∷◌, ◌≡◌, ◌≢◌, refl, sym, ◌∙◌, arith, leb, ◌==◌,
  ◌&&◌, ◌||◌, ◌⊎◌, All, Bool-cases, inl, inr,
}
use trim.Types.{FlowType}
use trim.Patch.Relocs.{Intervals, total_shift}
use trim.Arch.{field, moved, retarget}
use trim.Arch.Moved.{
  Moves, Aligned4, IsText, InText, patched, moved-Moves, moved-Aligned4, patched-retarget,
  moved-InText, moved_unshifted,
}
use trim.Arch.Mips.{
  j_target, branch_target, with_index, with_imm16, target_moved, decode_mips_word, decode_special,
  decode_regimm, patch_word,
}

-- J and JAL, and the relative branches.
pub data Kind (a w : ℕ) (flow : FlowType) (b : ℕ) : Type 0 where
  jump :
      field 26 6 w ≡ 2 → flow ≡ FlowType.unconditional_branch → b ≡ j_target a w → Kind a w flow b
  link : field 26 6 w ≡ 3 → flow ≡ FlowType.call → b ≡ j_target a w → Kind a w flow b
  branch :
      (leb 4 (field 26 6 w) && leb (field 26 6 w) 7) ≡ true
      → flow ≡ FlowType.conditional_branch
      → b ≡ branch_target a w
      → Kind a w flow b
  regimm :
      field 26 6 w ≡ 1
      → (field 16 5 w == 0 || field 16 5 w == 1) ≡ true
      → flow ≡ FlowType.conditional_branch
      → b ≡ branch_target a w
      → Kind a w flow b

Kind-decode :
    (a w : ℕ) (flow : FlowType) (b : ℕ) → Kind a w flow b → decode_mips_word a w ≡ (b ∷ [], flow)
unfolding decode_mips_word decode_regimm
Kind-decode a w flow b (Kind.jump h f e) = ground arith
Kind-decode a w flow b (Kind.link h f e) = ground arith
Kind-decode a w flow b (Kind.branch h f e) = ground arith
Kind-decode a w flow b (Kind.regimm h k f e) = ground arith

special-no_branch : (w : ℕ) (flow : FlowType) (b : ℕ) → decode_special w ≢ (b ∷ [], flow)
unfolding decode_special
special-no_branch w flow b = ground arith

regimm-Kind :
    (a w : ℕ) (flow : FlowType) (b : ℕ)
    → field 26 6 w ≡ 1
    → decode_regimm a w ≡ (b ∷ [], flow)
    → Kind a w flow b
unfolding decode_regimm
regimm-Kind a w flow b h k = Kind.regimm h (ground arith) (ground arith) (ground arith)

decode-Kind :
    (a w : ℕ) (flow : FlowType) (b : ℕ) → decode_mips_word a w ≡ (b ∷ [], flow) → Kind a w flow b
unfolding decode_mips_word
decode-Kind a w flow b h =
    let no = special-no_branch w flow b in
    elim (Bool-cases (field 26 6 w == 2)) [
      | inl y ↦ Kind.jump (ground arith) (ground arith) (ground arith)
      | inr n ↦ elim (Bool-cases (field 26 6 w == 3)) [
        | inl y ↦ Kind.link (ground arith) (ground arith) (ground arith)
        | inr n' ↦ elim (Bool-cases (field 26 6 w == 1)) [
          | inl y ↦ regimm-Kind a w flow b (ground arith) (ground arith)
          | inr n'' ↦ Kind.branch (ground arith) (ground arith) (ground arith)
        ]
      ]
    ]

module _ (w a b a' b' : ℕ) where
  fresh16 :
      a' % 4 ≡ 0
      → b' % 4 ≡ 0
      → b ≡ branch_target a w
      → Moves a b a' b'
      → branch_target a' (with_imm16 w a' b') ≡ b'
  unfolding branch_target with_imm16
  fresh16 ka kb e moves = ground arith

  same16 : a' + b ≡ b' + a → b ≡ branch_target a w → Moves a b a' b' → branch_target a' w ≡ b'
  unfolding branch_target
  same16 same e moves = ground arith

  -- All four addresses lie in one region of 2^28 bytes.
  fresh_index :
      b' % 4 ≡ 0 → a' / 2 ^ 28 ≡ b' / 2 ^ 28 → b' < 2 ^ 64 → j_target a' (with_index w b') ≡ b'
  unfolding j_target with_index
  fresh_index k region top = omega arith

  same_index : b ≡ j_target a w → a' / 2 ^ 28 ≡ a / 2 ^ 28 → j_target a' w ≡ b
  unfolding j_target
  same_index e region = omega arith

j_target4 : (a w b : ℕ) → b ≡ j_target a w → b % 4 ≡ 0
unfolding j_target
j_target4 a w b e = omega arith

with_index-kept : (w b' : ℕ) → w < 2 ^ 32 → field 26 6 (with_index w b') ≡ field 26 6 w
unfolding with_index
with_index-kept w b' h = omega arith

with_imm16-kept :
    (w a' b' : ℕ)
    → w < 2 ^ 32
    → (field 26 6 (with_imm16 w a' b') ≡ field 26 6 w)
      × (field 16 5 (with_imm16 w a' b') ≡ field 16 5 w)
unfolding with_imm16
with_imm16-kept w a' b' h = omega arith

module _ (r : Intervals) (ts te a b w : ℕ) (flow : FlowType) (text : IsText r ts te)
    (aligned : All Aligned4 r) (source : InText ts te a) (target : InText ts te b)
    (at_word : a % 4 ≡ 0) (word : w < 2 ^ 32) (region : ts / 2 ^ 28 ≡ (te - 1) / 2 ^ 28) where
  abbrev new_a : ℕ
  new_a = moved r ts te a

  abbrev new_b : ℕ
  new_b = moved r ts te b

  moves : Moves a b new_a new_b
  moves = moved-Moves r ts te a b text source target

  source4 : new_a % 4 ≡ 0
  source4 = moved-Aligned4 r ts te a text source aligned at_word

  target4 : b % 4 ≡ 0 → new_b % 4 ≡ 0
  target4 h = moved-Aligned4 r ts te b text target aligned h

  made16 : b ≡ branch_target a w → branch_target new_a (with_imm16 w new_a new_b) ≡ new_b
  unfolding branch_target
  made16 e = fresh16 w a b new_a new_b source4 (target4 (ground arith)) e moves

  -- The patch of a jump, whose opcode and target are kept or renewed.
  made_index :
      b ≡ j_target a w
      → (field 26 6 w ≡ 2) ⊎ (field 26 6 w ≡ 3)
      → (j_target new_a (patched (patch_word r ts te a b w) w) ≡ new_b)
        × (field 26 6 (patched (patch_word r ts te a b w) w) ≡ field 26 6 w)
  unfolding patch_word target_moved
  made_index e op =
      let at_a = moved-InText r ts te a text source in
      let at_b = moved-InText r ts te b text target in
      let mod4 : b % 4 ≡ 0 = j_target4 a w b e in
      let jumps : (field 26 6 w == 2 || field 26 6 w == 3) ≡ true = ground arith in
      elim (Bool-cases (total_shift b r ts te == 0)) [
        | inl still ↦
            let stays : new_b ≡ b = moved_unshifted r ts te b text target (ground arith) in
            rw (jumps, still) (same_index w a b new_a new_b e (omega arith) ∙ sym stays, refl)
        | inr shifted ↦
            rw (jumps, shifted)
              (
                fresh_index w a b new_a new_b (target4 mod4) (omega arith) (omega arith),
                with_index-kept w new_b word,
              )
      ]

  by-Kind :
      (new_a + b ≡ new_b + a → Kind new_a w flow new_b)
      → Kind new_a (with_imm16 w new_a new_b) flow new_b
      → Kind new_a (patched (retarget r ts te a b (with_imm16 w)) w) flow new_b
  by-Kind =
      patched-retarget r ts te a b text source target (λ x. Kind new_a x flow new_b) w
        (with_imm16 w)

  patch_word-retarget :
      (field 26 6 w == 2 || field 26 6 w == 3) ≡ false
      → ((leb 4 (field 26 6 w) && leb (field 26 6 w) 7) || field 26 6 w == 1) ≡ true
      → patch_word r ts te a b w ≡ retarget r ts te a b (with_imm16 w)
  unfolding patch_word target_moved retarget
  patch_word-retarget h k = rw (h, k) (ground arith)

  patch_word-Kind : Kind a w flow b → Kind new_a (patched (patch_word r ts te a b w) w) flow new_b
  patch_word-Kind (Kind.jump h f e) =
      let (there, kept) = made_index e (inl h) in Kind.jump (kept ∙ h) f (sym there)
  patch_word-Kind (Kind.link h f e) =
      let (there, kept) = made_index e (inr h) in Kind.link (kept ∙ h) f (sym there)
  patch_word-Kind (Kind.branch h f e) =
      let (op, rt) = with_imm16-kept w new_a new_b word in
      rw (patch_word-retarget (ground arith) (ground arith)) (
        by-Kind (λ same. Kind.branch h f (sym (same16 w a b new_a new_b same e moves)))
          (Kind.branch (ground arith) f (sym (made16 e))))
  patch_word-Kind (Kind.regimm h k f e) =
      let (op, rt) = with_imm16-kept w new_a new_b word in
      rw (patch_word-retarget (ground arith) (ground arith)) (
        by-Kind (λ same. Kind.regimm h k f (sym (same16 w a b new_a new_b same e moves)))
          (Kind.regimm (op ∙ h) (ground arith) f (sym (made16 e))))

  -- A jump or branch that the decoder finds in a word of .text, to a target in .text, has the same
  -- flow after the patch, and from the word's new address it leads to the target's new address. The
  -- dead intervals start and end at multiples of 4, as the word does, and .text lies in one region
  -- of 2^28 bytes, as absolute jumps need.
  pub patch_word-decode_mips_word :
      decode_mips_word a w ≡ (b ∷ [], flow)
      → decode_mips_word new_a (patched (patch_word r ts te a b w) w) ≡ (new_b ∷ [], flow)
  patch_word-decode_mips_word h =
      Kind-decode new_a (patched (patch_word r ts te a b w) w) flow new_b
        (patch_word-Kind (decode-Kind a w flow b h))

-- ===== src/Arch/Aarch64/Kinds.antt =====
-- src/arch/aarch64.rs: which words the decoder takes for branches.
use trim.Prelude.{
  ℕ, ◌/◌, ◌^◌, true, false, ◌≡◌, arith, ◌==◌, ◌||◌, ◌⊎◌, Bool-cases, inl, inr, ◌≢◌, ◌∙◌,
}
use trim.Types.{FlowType}
use trim.Arch.{field}
use trim.Arch.Aarch64.{
  branch26_target, branch19_target, branch14_target, is_b_cond, is_cbz, is_tbz, branch_to,
  decode_a64_word, decode_a64_other, decode_a64_branches, decode_a64_pcrel,
}

-- B and BL, the branches with 19 bits, and those with 14.
pub data Kind (a w : ℕ) (flow : FlowType) (b : ℕ) : Type 0 where
  jump :
      field 26 6 w ≡ 5
      → flow ≡ FlowType.unconditional_branch
      → b ≡ branch26_target a w
      → Kind a w flow b
  call : field 26 6 w ≡ 0x25 → flow ≡ FlowType.call → b ≡ branch26_target a w → Kind a w flow b
  conditional19 :
      (is_b_cond w || is_cbz w) ≡ true
      → flow ≡ FlowType.conditional_branch
      → b ≡ branch19_target a w
      → Kind a w flow b
  conditional14 :
      is_tbz w ≡ true
      → flow ≡ FlowType.conditional_branch
      → b ≡ branch14_target a w
      → Kind a w flow b

-- The top bits of a conditional branch, which no register branch and no trap has.
abbrev IsConditional : ℕ → Type 0
IsConditional w = (field 24 8 w ≡ 0x54) ⊎ ((field 25 6 w ≡ 0x1a) ⊎ (field 25 6 w ≡ 0x1b))

register_tests :
    (w : ℕ)
    → IsConditional w
    → ((field 10 22 w == 0xd65f_0000 / 2 ^ 10) ≡ false)
      × ((field 10 22 w == 0xd61f_0000 / 2 ^ 10) ≡ false)
      × ((field 10 22 w == 0xd63f_0000 / 2 ^ 10) ≡ false)
      × ((field 21 11 w == 0xd420_0000 / 2 ^ 21) ≡ false)
register_tests w (inl h) = (ground arith, ground arith, ground arith, ground arith)
register_tests w (inr (inl h)) = (ground arith, ground arith, ground arith, ground arith)
register_tests w (inr (inr h)) = (ground arith, ground arith, ground arith, ground arith)

jump_tests :
    (w : ℕ) → IsConditional w → ((field 26 6 w == 5) ≡ false) × ((field 26 6 w == 0x25) ≡ false)
jump_tests w (inl h) = (ground arith, ground arith)
jump_tests w (inr (inl h)) = (ground arith, ground arith)
jump_tests w (inr (inr h)) = (ground arith, ground arith)

decode-branches : (a w : ℕ) → IsConditional w → decode_a64_word a w ≡ decode_a64_branches a w
unfolding decode_a64_word decode_a64_other
decode-branches a w h =
    let (j, c) = jump_tests w h in let (t1, t2, t3, t4) = register_tests w h in ground arith

pub Kind-decode :
    (a w : ℕ) (flow : FlowType) (b : ℕ) → Kind a w flow b → decode_a64_word a w ≡ branch_to flow b
unfolding decode_a64_word decode_a64_branches
Kind-decode a w flow b (Kind.jump h f t) = ground arith
Kind-decode a w flow b (Kind.call h f t) = ground arith
Kind-decode a w flow b (Kind.conditional19 h f t) = elim (Bool-cases (is_b_cond w)) [
  | inl y ↦ decode-branches a w (inl (ground arith)) ∙ ground arith
  | inr n ↦ decode-branches a w (inr (inl (ground arith))) ∙ ground arith
]
Kind-decode a w flow b (Kind.conditional14 h f t) =
    decode-branches a w (inr (inr (ground arith))) ∙ ground arith

pcrel-no_branch : (a w : ℕ) (flow : FlowType) (b : ℕ) → decode_a64_pcrel a w ≢ branch_to flow b
unfolding decode_a64_pcrel
pcrel-no_branch a w flow b = ground arith

branches-Kind :
    (a w : ℕ) (flow : FlowType) (b : ℕ)
    → decode_a64_branches a w ≡ branch_to flow b
    → Kind a w flow b
unfolding decode_a64_branches
branches-Kind a w flow b h = elim (Bool-cases (is_b_cond w || is_cbz w)) [
  | inl y ↦ Kind.conditional19 y (ground arith) (ground arith)
  | inr n ↦
      let no = pcrel-no_branch a w flow b in
      Kind.conditional14 (ground arith) (ground arith) (ground arith)
]

other-branches :
    (a w : ℕ) (flow : FlowType) (b : ℕ)
    → decode_a64_other a w ≡ branch_to flow b
    → decode_a64_branches a w ≡ branch_to flow b
unfolding decode_a64_other
other-branches a w flow b h = ground arith

pub decode-Kind :
    (a w : ℕ) (flow : FlowType) (b : ℕ) → decode_a64_word a w ≡ branch_to flow b → Kind a w flow b
unfolding decode_a64_word
decode-Kind a w flow b h = elim (Bool-cases (field 26 6 w == 5)) [
  | inl y ↦ Kind.jump (ground arith) (ground arith) (ground arith)
  | inr n ↦ elim (Bool-cases (field 26 6 w == 0x25)) [
    | inl y ↦ Kind.call (ground arith) (ground arith) (ground arith)
    | inr n' ↦ branches-Kind a w flow b (other-branches a w flow b (ground arith))
  ]
]

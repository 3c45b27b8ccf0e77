-- ===== src/Format/Java/Compact/Offsets.antt =====
-- src/format/java/bytecode.rs: the new offset of a branch.
use trim.Prelude.{ℕ, ◌+◌, ◌^◌, ◌<◌, [], ◌∷◌, ◌≡◌, refl, arith}
use trim.Types.{Endian}
use trim.Types.Pointer.{decode_bytes, to_le_bytes, from_le_bytes}
use trim.Arch.Moved.{Closer}
use trim.Patch.Relocs.{Intervals, in_dead_range}
use trim.Patch.Relocs.Count.{
  IsPlan, IsPlan-le, dead_before, dead_before-le, count_below, count_below-in_dead_range,
  count_below_mono, count_below-le,
}
use trim.Format.Java.Compact.{java_shift, branch_target, shifted, offset_bytes}

-- The dead bytes before an offset.
java_shift-dead_before :
    (lo hi a : ℕ) (r : Intervals) → IsPlan lo hi r → hi < 2 ^ 64 → java_shift a r ≡ dead_before a r
unfolding java_shift dead_before
java_shift-dead_before lo hi a [] plan top = refl
java_shift-dead_before lo hi a ((s, e) ∷ r) plan top =
    let rest = java_shift-dead_before e hi a r plan.2 top in
    let last = IsPlan-le e hi r plan.2 in
    let le = dead_before-le e hi a r plan.2 in ground (arith, rest, last, le)

module _ (r : Intervals) (n : ℕ) (plan : IsPlan 0 n r) (small : n < 2 ^ 31) where
  pub shifted-count_below :
      (a : ℕ) → a < n → shifted r a + count_below (λ x. in_dead_range x r) a ≡ a
  shifted-count_below a h =
      let e = java_shift-dead_before 0 n a r plan (omega arith) in
      let c = count_below-in_dead_range 0 n a r plan in
      omega (arith, e, c, count_below-le (λ x. in_dead_range x r) a)

  pub shifted-Closer : (a b : ℕ) → a < n → b < n → Closer a b (shifted r a) (shifted r b)
  shifted-Closer a b ha hb =
      let p = λ (x : ℕ). in_dead_range x r in
      let ma = shifted-count_below a ha in
      let mb = shifted-count_below b hb in
      (
        omega arith,
        omega arith,
        λ le. let m = count_below_mono p a b le in (omega arith, omega arith),
        λ le. let m = count_below_mono p b a le in (omega arith, omega arith),
      )

-- The new offset of a branch, in as many bytes as the old one, leads from the new place to the new
-- place of the target.
module _ (a b a' b' : ℕ) (small_a : a < 2 ^ 31) (small_b : b < 2 ^ 31)
    (closer : Closer a b a' b') where
  pub short_lands :
      (old : ℕ)
      → b ≡ branch_target a 16 old
      → branch_target a' 16 (decode_bytes Endian.big (offset_bytes 2 a' b')) ≡ b'
  unfolding to_le_bytes from_le_bytes
  short_lands old e = ground arith

  pub wide_lands :
      (old : ℕ)
      → b ≡ branch_target a 32 old
      → branch_target a' 32 (decode_bytes Endian.big (offset_bytes 4 a' b')) ≡ b'
  unfolding to_le_bytes from_le_bytes
  wide_lands old e = ground arith

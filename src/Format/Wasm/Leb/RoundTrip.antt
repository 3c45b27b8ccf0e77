-- ===== src/Format/Wasm/Leb/RoundTrip.antt =====
-- src/format/wasm/mod.rs: a number that is written is read again.
use trim.Prelude.{
  ℕ, suc, ◌+◌, ◌*◌, ◌/◌, ◌%◌, ◌^◌, ◌≤◌, ◌<◌, true, false, List, ◌++◌, ◌≡◌, refl, sym, ◌∙◌, ap, ap₂,
  arith, leb, ltb, ◌==◌, ◌||◌, length, Bool-cases, inl, inr, drop-append,
}
use trim.Format.Wasm.Leb.{leb_from, read_leb128_u32, write_from, write_leb128_u32}

-- Reading what `v` is written as in at most `fuel` groups, at `shift`.
abbrev Reads : ℕ → ℕ → ℕ → Type 0
Reads fuel shift v =
    (result : ℕ) (rest : List ℕ)
    → leb_from result shift (write_from fuel v ++ rest)
      ≡ (result + v * 2 ^ shift, length (write_from fuel v))

-- The last group.
Reads-last :
    (fuel shift v : ℕ)
    → v < 128
    → v % 128 * 2 ^ shift % 2 ^ 32 ≡ v * 2 ^ shift
    → Reads (suc fuel) shift v
unfolding leb_from write_from
Reads-last fuel shift v h kept result rest =
    let e : (v / 128 == 0) ≡ true = ground arith in
    let stop : (ltb (v % 128 % 256) 128 || leb 35 (shift + 7)) ≡ true = ground arith in
    let e' : v % 128 % 128 ≡ v % 128 = omega arith in rw e (rw stop (rw e' (rw kept refl)))

-- A group before others.
Reads-more :
    (fuel shift v : ℕ)
    → 128 ≤ v
    → shift < 28
    → v % 128 * 2 ^ shift % 2 ^ 32 + v / 128 * 2 ^ (shift + 7) ≡ v * 2 ^ shift
    → Reads fuel (shift + 7) (v / 128)
    → Reads (suc fuel) shift v
unfolding leb_from write_from
Reads-more fuel shift v h low sum more result rest =
    let e : (v / 128 == 0) ≡ false = ground arith in
    let go : (ltb ((v % 128 + 128) % 256) 128 || leb 35 (shift + 7)) ≡ false = ground arith in
    let e' : (v % 128 + 128) % 128 ≡ v % 128 = omega arith in
    rw e (
      rw go (
        rw e' (
          rw (more (result + v % 128 * 2 ^ shift % 2 ^ 32) rest)
            (ap₂ (λ (x y : ℕ). (x, y)) (omega arith) (omega arith)))))

-- As many groups as fit above the shift.
reads28 : (v : ℕ) → v < 2 ^ 4 → Reads 1 28 v
reads28 v h = Reads-last 0 28 v (omega arith) (omega arith)

reads21 : (v : ℕ) → v < 2 ^ 11 → Reads 2 21 v
reads21 v h = elim (Bool-cases (ltb v 128)) [
  | inl small ↦ Reads-last 1 21 v (ground arith) (ground arith)
  | inr large ↦
      Reads-more 1 21 v (ground arith) (omega arith) (ground arith)
        (reads28 (v / 128) (omega arith))
]

reads14 : (v : ℕ) → v < 2 ^ 18 → Reads 3 14 v
reads14 v h = elim (Bool-cases (ltb v 128)) [
  | inl small ↦ Reads-last 2 14 v (ground arith) (ground arith)
  | inr large ↦
      Reads-more 2 14 v (ground arith) (omega arith) (ground arith)
        (reads21 (v / 128) (omega arith))
]

reads7 : (v : ℕ) → v < 2 ^ 25 → Reads 4 7 v
reads7 v h = elim (Bool-cases (ltb v 128)) [
  | inl small ↦ Reads-last 3 7 v (ground arith) (ground arith)
  | inr large ↦
      Reads-more 3 7 v (ground arith) (omega arith) (ground arith) (reads14 (v / 128) (omega arith))
]

reads0 : (v : ℕ) → v < 2 ^ 32 → Reads 5 0 v
reads0 v h = elim (Bool-cases (ltb v 128)) [
  | inl small ↦ Reads-last 4 0 v (ground arith) (ground arith)
  | inr large ↦
      Reads-more 4 0 v (ground arith) (omega arith) (ground arith) (reads7 (v / 128) (omega arith))
]

-- Bytes that are read as a number, whatever follows them.
abbrev pub IsLeb : List ℕ → ℕ → Type 0
IsLeb bytes v = (rest : List ℕ) → leb_from 0 0 (bytes ++ rest) ≡ (v, length bytes)

pub write_leb128_u32-IsLeb : (v : ℕ) → v < 2 ^ 32 → IsLeb (write_leb128_u32 v) v
unfolding write_leb128_u32
write_leb128_u32-IsLeb v h rest =
    reads0 v h 0 rest ∙ ap (λ (x : ℕ). (x, length (write_leb128_u32 v))) (omega arith)

-- Such bytes inside a file.
pub read_leb128_u32-IsLeb :
    (before bytes rest : List ℕ) (pos v : ℕ)
    → pos ≡ length before
    → IsLeb bytes v
    → read_leb128_u32 (before ++ (bytes ++ rest)) pos ≡ (v, pos + length bytes)
unfolding read_leb128_u32
read_leb128_u32-IsLeb before bytes rest pos v h is =
    rw (drop-append pos before (bytes ++ rest) (sym h)) (rw (is rest) refl)

-- A `u32` that is written anywhere in a file is read back there, and the reader ends right behind
-- it.
pub read_leb128_u32-write_leb128_u32 :
    (before rest : List ℕ) (v : ℕ)
    → v < 2 ^ 32
    → read_leb128_u32 (before ++ (write_leb128_u32 v ++ rest)) (length before)
      ≡ (v, length before + length (write_leb128_u32 v))
read_leb128_u32-write_leb128_u32 before rest v h =
    read_leb128_u32-IsLeb before (write_leb128_u32 v) rest (length before) v refl
      (write_leb128_u32-IsLeb v h)

-- ===== src/Format/Wasm/Leb.antt =====
-- src/format/wasm/mod.rs: numbers in LEB128.
pub mod RoundTrip
use trim.Prelude.{
  ℕ, zero, suc, ◌+◌, ◌*◌, ◌/◌, ◌%◌, ◌^◌, Bool, true, false, List, [], ◌∷◌, leb, ltb, ◌==◌, ◌||◌,
  if◌then◌else◌, drop,
}

-- The loop of `read_leb128_u32` on the bytes that are left: the value, and how many bytes it took.
-- `result` holds bits below `shift` only, so that `|=` adds.
unfoldable pub leb_from : ℕ → ℕ → List ℕ → ℕ × ℕ
leb_from result shift [] = (result, 0)
leb_from result shift (b ∷ rest) =
    let result' = result + b % 128 * 2 ^ shift % 2 ^ 32 in
    let further = leb_from result' (shift + 7) rest in
    if ltb (b % 256) 128 || leb 35 (shift + 7) then (result', 1) else (further.0, further.1 + 1)

unfoldable pub read_leb128_u32 : List ℕ → ℕ → ℕ × ℕ
read_leb128_u32 bytes pos =
    let (value, taken) = leb_from 0 0 (drop pos bytes) in (value, pos + taken)

-- A `u32` has five groups at most.
unfoldable pub write_from : ℕ → ℕ → List ℕ
write_from zero v = []
write_from (suc fuel) v =
    let further = write_from fuel (v / 128) in
    if v / 128 == 0 then v % 128 ∷ [] else (v % 128 + 128) ∷ further

unfoldable pub write_leb128_u32 : ℕ → List ℕ
write_leb128_u32 v = write_from 5 v

-- How many bytes `skip_leb128` takes.
unfoldable pub leb_length : List ℕ → ℕ
leb_length [] = 0
leb_length (b ∷ rest) = if ltb (b % 256) 128 then 1 else leb_length rest + 1

unfoldable pub skip_leb128 : List ℕ → ℕ → ℕ
skip_leb128 bytes pos = pos + leb_length (drop pos bytes)

-- ===== src/Format/Java/Compact/Refusals.antt =====
-- src/format/java/bytecode.rs: what holds of a method that `compact_method_code` compacts.
use trim.Prelude.{
  ℕ, ◌+◌, ◌-◌, Option, none, wrapping_add, wrapping_sub, ◌≤◌, Bool, List, [], ◌∷◌, ◌++◌, ◌≡◌, refl,
  arith, some, length, take, drop, ap, ◌∙◌, sym, ltb, leb, ◌==◌, if◌then◌else◌, inl, inr,
  Bool-cases, Option-cases, length-append, length-take, length-drop,
}
use trim.Types.{Endian}
use trim.Types.Pointer.{slice, splice, encode_bytes, to_le_bytes}
use trim.Patch.Relocs.{Intervals, in_dead_range}
use trim.Patch.Relocs.Count.{IsPlan, count_below, dead_before, count_below-in_dead_range}
use trim.Patch.Compact.Live.{live_where, length-live_where}
use trim.Format.Ranges.{sort_ranges}
use trim.Format.Java.Classfile.{CpEntry, MethodInfo}
use trim.Format.Java.Compact.{
  put_u32, new_attr_length, patch_code_branches, excise_ranges, rebuild_method_bytes,
  relative_ranges, compact_code, refuses, compact_method_code,
}
use trim.Format.Java.Compact.Excise.{excise_ranges-live}
use trim.Format.Java.Compact.Guards.{
  NoSwitch, NoStackMap, NoSwitch-has_switch, NoStackMap-has_stack_map,
}
use trim.Format.Java.Compact.Walk.{length-patch_code_branches}

length-slice :
    (bytes out : List ℕ) (a b : ℕ)
    → slice bytes a b ≡ some out
    → (length out + a ≡ b) × (b ≤ length bytes)
length-slice bytes out a b h =
    ground (arith, length-take (b - a) (drop a bytes), length-drop a bytes)

length-splice :
    (bytes out new : List ℕ) (a b : ℕ)
    → splice bytes a b new ≡ some out
    → a + length new ≡ b
    → length out ≡ length bytes
length-splice bytes out new a b h e = ground (
  arith,
  length-append (take a bytes) (new ++ drop b bytes),
  length-append new (drop b bytes),
  length-take a bytes,
  length-drop b bytes,
)

four_bytes : (v : ℕ) → length (encode_bytes Endian.big 4 v) ≡ 4
unfolding to_le_bytes
four_bytes v = refl

length-put_u32 :
    (bytes out : List ℕ) (off : ℕ) (value : Option ℕ)
    → put_u32 bytes off value ≡ some out
    → length out ≡ length bytes
length-put_u32 bytes out off none h = elim (Bool-cases (leb (wrapping_add off 4) (length bytes))) [
  | inl fits ↦ absurd (cc (rw fits at h))
  | inr past ↦
      let h' : some bytes ≡ some out = rw past at h in let e : out ≡ bytes = cc in ap length e
]
length-put_u32 bytes out off (some v) h =
    elim (Bool-cases (leb (wrapping_add off 4) (length bytes))) [
      | inl fits ↦
          let new = splice bytes off (wrapping_add off 4) (encode_bytes Endian.big 4 v) in
          let put : new ≡ some out =
            sym (ap (λ (b : Bool). if b then new else some bytes) fits) ∙ h in
          length-splice bytes out (encode_bytes Endian.big 4 v) off (wrapping_add off 4) put
            (ground (arith, four_bytes v))
      | inr past ↦
          let h' : some bytes ≡ some out = rw past at h in let e : out ≡ bytes = cc in ap length e
    ]

length_tail :
    (bytes after : List ℕ) (a b : ℕ)
    → a ≤ b
    → (if ltb a b then slice bytes a b else some []) ≡ some after
    → length after + a ≡ b
length_tail bytes after a b h e = elim (Bool-cases (ltb a b)) [
  | inl more ↦ (length-slice bytes after a b (rw more at e)).0
  | inr ends ↦
      let e' : some [] ≡ some after = rw ends at e in
      let same : after ≡ [] = cc in rw same (ground arith)
]

-- The bytes around the code stay, so that the method is as much longer as its code is.
length-rebuild_method_bytes :
    (bytes : List ℕ) (m : MethodInfo) (ca_off code_off : ℕ) (compacted : List ℕ) (removed : ℕ)
    (out : List ℕ)
    → m.raw_offset ≤ code_off
    → code_off + m.code_length ≤ m.raw_offset + m.raw_size
    → rebuild_method_bytes bytes m ca_off code_off compacted removed ≡ some out
    → length out + m.code_length ≡ m.raw_size + length compacted
unfolding rebuild_method_bytes
length-rebuild_method_bytes bytes m ca_off code_off compacted removed out low high h =
    let raw_end = m.raw_offset + m.raw_size in
    let after_code = code_off + m.code_length in
    let length_place = wrapping_sub (wrapping_sub code_off m.raw_offset) 4 in
    let tail = if ltb after_code raw_end then slice bytes after_code raw_end else some [] in
    elim (Option-cases (slice bytes m.raw_offset code_off)) [
      | inl none_before ↦ absurd (cc (rw (rebuild_method_bytes, none_before) at h))
      | inr (before, first) ↦ elim (Option-cases tail) [
        | inl none_after ↦ absurd (cc (rw (rebuild_method_bytes, first, none_after) at h))
        | inr (after, last) ↦
            elim (Option-cases
              (put_u32 (before ++ (compacted ++ after)) length_place (some (length compacted)))) [
                | inl stuck ↦ absurd (cc (rw (rebuild_method_bytes, first, last, stuck) at h))
                | inr (result, put) ↦
                    let h' = rw (rebuild_method_bytes, first, last, put) at h in
                    let size =
                      length-put_u32 (before ++ (compacted ++ after)) result length_place
                        (some (length compacted)) put in
                    let size' =
                      length-put_u32 result out (wrapping_sub (wrapping_add ca_off 2) m.raw_offset)
                        (new_attr_length bytes ca_off removed) h' in
                    omega (
                      arith,
                      size,
                      size',
                      length-append before (compacted ++ after),
                      length-append compacted after,
                      (length-slice bytes before m.raw_offset code_off first).0,
                      length_tail bytes after after_code raw_end high last,
                    )
              ]
      ]
    ]

length-compact_code :
    (bytes : List ℕ) (m : MethodInfo) (ca_off code_off : ℕ) (ranges : Intervals) (out : List ℕ)
    → m.raw_offset ≤ code_off
    → code_off + m.code_length ≤ m.raw_offset + m.raw_size
    → IsPlan 0 m.code_length (sort_ranges ranges)
    → compact_code bytes m ca_off code_off ranges ≡ some out
    → length out + dead_before m.code_length (sort_ranges ranges) ≡ m.raw_size
unfolding compact_code
length-compact_code bytes m ca_off code_off [] out low high plan h = absurd cc
length-compact_code bytes m ca_off code_off (x ∷ xs) out low high plan h =
    let rel = sort_ranges (x ∷ xs) in
    elim (Option-cases (slice bytes code_off (code_off + m.code_length))) [
      | inl none_code ↦ absurd (cc (rw (compact_code, none_code) at h))
      | inr (code, sliced) ↦
          let patched = patch_code_branches code rel in
          let dead = λ (y : ℕ). in_dead_range y rel in
          let compacted = live_where dead patched in
          let size : length patched ≡ m.code_length = omega (
            arith,
            length-patch_code_branches code rel,
            (length-slice bytes code code_off (code_off + m.code_length) sliced).0,
          ) in
          let excised : excise_ranges patched rel ≡ some compacted =
            excise_ranges-live patched rel (rw size plan) in
          let removed = m.code_length - length compacted in
          let total : length compacted + dead_before m.code_length rel ≡ m.code_length = omega (
            arith,
            length-live_where dead patched,
            ap (count_below dead) size,
            size,
            count_below-in_dead_range 0 m.code_length m.code_length rel plan,
          ) in
          elim (Bool-cases (removed == 0)) [
            | inl nothing ↦ absurd (cc (rw (compact_code, sliced, excised, nothing) at h))
            | inr some_removed ↦
                let rebuilt = rw (compact_code, sliced, excised, some_removed) at h in
                omega (
                  arith,
                  total,
                  length-rebuild_method_bytes bytes m ca_off code_off compacted removed out low high
                      rebuilt,
                )
          ]
    ]

-- For a method whose code lies inside it, and dead ranges that are in order, disjoint and inside the
-- code: when it is compacted it has no exception handler; none of the opcodes that a walk over its
-- code meets is that of a tableswitch or a lookupswitch; none of the attributes behind its handlers,
-- as far as the file holds their headers, has the name StackMapTable; and it gets shorter by the
-- dead bytes of its code.
pub compact_method_code_sound :
    (bytes : List ℕ) (m : MethodInfo) (code_off : ℕ) (dead_ranges : Intervals) (pool : List CpEntry)
    (out : List ℕ)
    → m.code_offset ≡ some code_off
    → m.raw_offset ≤ code_off
    → code_off + m.code_length ≤ m.raw_offset + m.raw_size
    → let rel = sort_ranges (relative_ranges code_off m.code_length dead_ranges) in
      IsPlan 0 m.code_length rel
      → compact_method_code bytes m dead_ranges pool ≡ some out
      → (m.exception_table_len ≡ 0)
        × NoSwitch code_off (take m.code_length (drop code_off bytes))
        × NoStackMap bytes (code_off + m.code_length) pool
        × (length out + dead_before m.code_length rel ≡ m.raw_size)
unfolding compact_method_code refuses
compact_method_code_sound bytes m code_off dead_ranges pool out at low high plan h =
    let ranges = relative_ranges code_off m.code_length dead_ranges in
    elim (Option-cases m.code_attr_offset) [
      | inl no_attr ↦ absurd (cc (rw (compact_method_code, at, no_attr) at h))
      | inr (ca_off, attr) ↦ elim (Bool-cases (refuses bytes m code_off dead_ranges pool)) [
        | inl refused ↦ absurd (cc (rw (compact_method_code, at, attr, refused) at h))
        | inr accepted ↦ (
          ground arith,
          NoSwitch-has_switch bytes code_off m.code_length (ground arith),
          NoStackMap-has_stack_map bytes code_off m.code_length m pool ca_off attr (ground arith),
          length-compact_code bytes m ca_off code_off ranges out low high plan
              (rw (compact_method_code, at, attr, accepted) at h),
        )
      ]
    ]

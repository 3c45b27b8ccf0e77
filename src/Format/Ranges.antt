-- ===== src/Format/Ranges.antt =====
-- src/format/wasm/mod.rs and src/format/java/mod.rs: the maps that both keep, of names, and from a
-- function body or method to its dead ranges, a `HashMap<usize, Vec<(usize, usize)>>`.
use trim.Prelude.{
  String, str_eq, string_eq, Bool, map, ℕ, List, [], ◌∷◌, ◌++◌, Option, none, some, leb, ◌==◌,
  if◌then◌else◌,
}
use trim.Prelude.Sets.{contains}
use trim.Patch.Relocs.{Interval, Intervals}

abbrev pub BlockRanges : Type 0
BlockRanges = List (ℕ × Intervals)

-- `result.entry(bcs).or_default().push(range)`
unfoldable pub push_range : ℕ → Interval → BlockRanges → BlockRanges
push_range start range [] = (start, range ∷ []) ∷ []
push_range start range ((k, ranges) ∷ result) =
    if k == start
    then (k, ranges ++ range ∷ []) ∷ result
    else (k, ranges) ∷ push_range start range result

unfoldable pub ranges_of : ℕ → BlockRanges → Option Intervals
ranges_of start [] = none
ranges_of start ((k, ranges) ∷ result) = if k == start then some ranges else ranges_of start result

-- `sort_by_key` on the start, which is stable.
unfoldable pub insert_range : Interval → Intervals → Intervals
insert_range r [] = r ∷ []
insert_range r (q ∷ rest) = if leb r.0 q.0 then r ∷ q ∷ rest else q ∷ insert_range r rest

unfoldable pub sort_ranges : Intervals → Intervals
sort_ranges [] = []
sort_ranges (r ∷ rest) = insert_range r (sort_ranges rest)

-- `HashMap::insert`
unfoldable pub insert_name {ℓ} : {A : Type ℓ} → String → A → List (String × A) → List (String × A)
insert_name name x [] = (name, x) ∷ []
insert_name name x ((k, y) ∷ rest) =
    if str_eq k name then (k, x) ∷ rest else (k, y) ∷ insert_name name x rest

-- `HashMap<String, (u64, u64)>`: where a dead function starts, and its size.
abbrev pub DeadMap : Type 0
DeadMap = List (String × (ℕ × ℕ))

abbrev pub contains_key : DeadMap → String → Bool
contains_key dead name = contains (map (λ (d : String × (ℕ × ℕ)). d.0) dead) name

-- ===== src/Format/Java/Methods/Removed.antt =====
-- src/format/java/mod.rs: which methods are left out of the new class file.
use mathlib.Core.Logic.{∥∥₁_elim}
use mathlib.Core.Bool.{So-prop, true≢false}
use trim.Prelude.{
  ℕ, zero, suc, ◌+◌, Bool, true, false, not, List, [], ◌∷◌, some, ◌≡◌, ◌≢◌, ◌↔◌, ◌<◌, refl, sym, ap,
  ◌∙◌, arith, ◌&&◌, ◌||◌, String, str_eq, str_eq_iff, string_eq, nat_eq, get_elem?, Bool-cases, inl,
  inr,
}
use trim.Prelude.Sets.{contains}
use trim.Prelude.Worklist.Correct.{Reach}
use trim.Prelude.Worklist.Graph.{neighbours, search_from_correct}
use trim.Format.Ranges.{DeadMap, insert_name, contains_key}
use trim.Format.Java.Classfile.{CpEntry, MethodInfo, ClassFile, cp_utf8}
use trim.Format.Java.Methods.{
  is_root, indices, call_graph, bfs_live, dead_methods, find_dead_methods, dead_indices,
}

-- The walks along the calls that the bytecode of the class makes to its own methods.
abbrev pub Live : List ℕ → ClassFile → ℕ → Type 0
Live bytes cf i =
    Reach (neighbours (call_graph bytes cf cf.methods 0))
      (indices (is_root cf.constant_pool) cf.methods 0) i

abbrev pub name_of : ClassFile → MethodInfo → String
name_of cf m = cp_utf8 cf.constant_pool m.name_index

contains_key-insert_name :
    (k name : String) (x : ℕ × ℕ) (dead : DeadMap)
    → contains_key (insert_name k x dead) name ≡ (str_eq k name || contains_key dead name)
unfolding insert_name
contains_key-insert_name k name x [] = refl
contains_key-insert_name k name x ((k', y) ∷ dead) = elim (Bool-cases (str_eq k' k)) [
  | inl same ↦ let e : k' ≡ k = (str_eq_iff k' k).0 same in rw same (rw e (ground arith))
  | inr other ↦ rw other (rw (contains_key-insert_name k name x dead) (ground arith))
]

not_true→false : {b : Bool} → (b ≡ true → ⊥) → b ≡ false
not_true→false {b = true} h = absurd (h refl)
not_true→false {b = false} h = refl

-- The index of a method is taken where the test accepts the method.
contains-indices_below :
    (p : MethodInfo → Bool) (ms : List MethodInfo) (idx i : ℕ)
    → i < idx
    → contains (indices p ms idx) i ≡ false
unfolding indices
contains-indices_below p [] idx i h = refl
contains-indices_below p (m ∷ ms) idx i h =
    ground (arith, contains-indices_below p ms (idx + 1) i (omega arith))

pub contains-indices :
    (p : MethodInfo → Bool) (ms : List MethodInfo) (idx k : ℕ) (m : MethodInfo)
    → get_elem? ms k ≡ some m
    → contains (indices p ms idx) (idx + k) ≡ p m
unfolding indices
contains-indices p [] idx k m h = absurd cc
contains-indices p (x ∷ ms) idx zero m h =
    let e : x ≡ m = cc in
    let below = contains-indices_below p ms (idx + 1) (idx + 0) (omega arith) in
    ground (arith, below, ap p e)
contains-indices p (x ∷ ms) idx (suc k) m h =
    let e : idx + suc k ≡ idx + 1 + k = omega arith in
    let rest = contains-indices p ms (idx + 1) k m h in rw e (ground (arith, rest))

module _ (pool : List CpEntry) (live : List ℕ) where
  -- Some method of the name is dead.
  has_dead : List MethodInfo → ℕ → String → Bool
  has_dead [] idx name = false
  has_dead (m ∷ ms) idx name =
      let found = str_eq (cp_utf8 pool m.name_index) name in
      (not (contains live idx || str_eq (cp_utf8 pool m.name_index) "") && found)
      || has_dead ms (idx + 1) name

  contains_key-dead_methods :
      (ms : List MethodInfo) (idx : ℕ) (dead : DeadMap) (name : String)
      → contains_key (dead_methods pool live ms idx dead) name
        ≡ (contains_key dead name || has_dead ms idx name)
  unfolding dead_methods has_dead
  contains_key-dead_methods [] idx dead name = ground arith
  contains_key-dead_methods (m ∷ ms) idx dead name =
      let k = cp_utf8 pool m.name_index in
      elim (Bool-cases (contains live idx || str_eq k "")) [
        | inl kept ↦ rw (kept, contains_key-dead_methods ms (idx + 1) dead name) (ground arith)
        | inr dropped ↦
            rw
              (
                dropped,
                contains_key-dead_methods ms (idx + 1)
                    (insert_name k (m.raw_offset, m.raw_size) dead) name,
                contains_key-insert_name k name (m.raw_offset, m.raw_size) dead,
              )
              (ground arith)
      ]

  -- A dead method of a name, and its place.
  abbrev DeadAt : List MethodInfo → ℕ → String → Type 0
  DeadAt ms idx name =
      (k : ℕ) × (m : MethodInfo) × (get_elem? ms k ≡ some m)
      × (contains live (idx + k) ≡ false)
      × (cp_utf8 pool m.name_index ≢ "")
      × (cp_utf8 pool m.name_index ≡ name)

  has_dead-DeadAt :
      (ms : List MethodInfo) (idx : ℕ) (name : String)
      → has_dead ms idx name ≡ true
      → DeadAt ms idx name
  unfolding has_dead
  has_dead-DeadAt [] idx name h = absurd cc
  has_dead-DeadAt (m ∷ ms) idx name h =
      let k = cp_utf8 pool m.name_index in
      elim (Bool-cases (not (contains live idx || str_eq k "") && str_eq k name)) [
        | inl here ↦
            let e : idx + 0 ≡ idx = omega arith in
            let named : str_eq k name ≡ true = ground arith in
            let anonymous : str_eq k "" ≡ false = ground arith in
            let dead : contains live idx ≡ false = ground arith in
            (
              0,
              m,
              refl,
              rw e dead,
              λ empty. true≢false (sym ((str_eq_iff k "").1 empty) ∙ anonymous),
              (str_eq_iff k name).0 named,
            )
        | inr later ↦
            let (j, m', at, dead, named, same) =
              has_dead-DeadAt ms (idx + 1) name (rw later at h) in
            let e : idx + suc j ≡ idx + 1 + j = omega arith in
            (suc j, m', at, rw e dead, named, same)
      ]

  DeadAt-has_dead :
      (ms : List MethodInfo) (idx : ℕ) (name : String) (k : ℕ) (m : MethodInfo)
      → get_elem? ms k ≡ some m
      → contains live (idx + k) ≡ false
      → cp_utf8 pool m.name_index ≢ ""
      → cp_utf8 pool m.name_index ≡ name
      → has_dead ms idx name ≡ true
  unfolding has_dead
  DeadAt-has_dead [] idx name k m at dead named same = absurd cc
  DeadAt-has_dead (x ∷ ms) idx name zero m at dead named same =
      let e : x ≡ m = cc in
      let e' : idx + 0 ≡ idx = omega arith in
      let dead' : contains live idx ≡ false = rw e' at dead in
      let same' = (str_eq_iff (cp_utf8 pool m.name_index) name).1 same in
      let named' : str_eq (cp_utf8 pool m.name_index) "" ≡ false =
        not_true→false (λ t. named ((str_eq_iff (cp_utf8 pool m.name_index) "").0 t)) in
      rw e (rw (dead', same', named') refl)
  DeadAt-has_dead (x ∷ ms) idx name (suc k) m at dead named same =
      let e : idx + suc k ≡ idx + 1 + k = omega arith in
      let rest = DeadAt-has_dead ms (idx + 1) name k m at (rw e at dead) named same in
      ground (arith, rest)

-- A method of the name of `m` that no walk reaches.
abbrev pub DeadNamesake : List ℕ → ClassFile → MethodInfo → Type 0
DeadNamesake bytes cf m =
    (j : ℕ) × (m' : MethodInfo) × (get_elem? cf.methods j ≡ some m')
    × (Live bytes cf j → ⊥)
    × (name_of cf m' ≢ "")
    × (name_of cf m' ≡ name_of cf m)

-- The search for dead methods ends. With the methods that it finds, `dead_indices` holds exactly
-- those for which some method of the same name, which is not empty, is reached by no walk along
-- the calls from the root methods: the method itself, or another one of that name.
pub dead_indices-find_dead_methods :
    (bytes : List ℕ) (cf : ClassFile)
    → (dead : DeadMap) × (find_dead_methods bytes cf ≡ some dead)
      × ((i : ℕ) (m : MethodInfo)
          → get_elem? cf.methods i ≡ some m
          → (contains (dead_indices cf dead) i ≡ true) ↔ ∥ DeadNamesake bytes cf m ∥₁)
unfolding find_dead_methods dead_indices bfs_live
dead_indices-find_dead_methods bytes cf =
    let pool = cf.constant_pool in
    let (live, ends, exact) =
      search_from_correct (indices (is_root pool) cf.methods 0)
        (call_graph bytes cf cf.methods 0) in
    let dead = dead_methods pool live cf.methods 0 [] in
    let removed : (i : ℕ) (m : MethodInfo)
        → get_elem? cf.methods i ≡ some m
        → contains (dead_indices cf dead) i ≡ has_dead pool live cf.methods 0 (name_of cf m) =
      λ i m at.
        let e : 0 + i ≡ i = omega arith in
        ap (contains (dead_indices cf dead)) (sym e)
        ∙ contains-indices (λ m. contains_key dead (name_of cf m)) cf.methods 0 i m at
        ∙ contains_key-dead_methods pool live cf.methods 0 [] (name_of cf m) in
    (
      dead,
      rw (find_dead_methods, bfs_live, ends) refl,
      λ i m at. (
        λ h.
            let (j, m', at', unmarked, named, same) =
              has_dead-DeadAt pool live cf.methods 0 (name_of cf m) (sym (removed i m at) ∙ h) in
            let e : 0 + j ≡ j = omega arith in
            let unmarked' : contains live j ≡ false = rw e at unmarked in
            ∣ (
              j,
              m',
              at',
              λ walk. true≢false (sym ((exact j).1 ∣ walk ∣₁) ∙ unmarked'),
              named,
              same,
            ) ∣₁,
        λ namesake. ∥∥₁_elim namesake (So-prop _) (λ found.
            let (j, m', at', unreached, named, same) = found in
            let e : 0 + j ≡ j = omega arith in
            let unmarked : contains live j ≡ false =
              not_true→false (λ t. ∥∥₁_elim ((exact j).0 t) (λ x y. absurd x) unreached) in
            removed i m at
            ∙ DeadAt-has_dead pool live cf.methods 0 (name_of cf m) j m' at' (rw e unmarked) named
                same),
      ),
    )

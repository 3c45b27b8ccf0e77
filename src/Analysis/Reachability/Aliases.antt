-- ===== src/Analysis/Reachability/Aliases.antt =====
-- src/analysis/reachability.rs: what one round of alias expansion adds.
use mathlib.Core.List.{append-nil, append_assoc}
use trim.Prelude.{
  ℕ, ◌+◌, ◌≤◌, ◌<◌, Bool, true, false, not, List, [], ◌∷◌, ◌++◌, some, String, ◌≡◌, refl, arith,
  ◌&&◌, ◌||◌, ◌==◌, if◌then◌else◌, length, any, ◌⊎◌, Bool-cases, Option-cases, inl, inr, str_eq,
  str_eq_iff, string_eq, nat_eq, ap, ◌∙◌, sym,
}
use trim.Prelude.Sets.{contains, contains-append, beq_refl}
use trim.Prelude.Worklist.Prefix.{Fresh}
use trim.Types.{FuncMap}
use trim.Analysis.Reachability.{func_addr, live_addrs, insert_name, add_aliases}

-- The map has a function of that name at that address.
abbrev pub has_func : FuncMap → String → ℕ → Bool
has_func funcs v a = any (λ f. str_eq f.0 v && f.1.addr == a) funcs

pub contains-insert_name :
    (live : List String) (k v : String)
    → contains (insert_name live k) v ≡ (contains live v || str_eq k v)
contains-insert_name live k v = elim (Bool-cases (contains live k)) [
  | inl old ↦ rw old (elim (Bool-cases (str_eq k v)) [
    | inl same ↦ let e = (str_eq_iff k v).0 same in ground (arith, ap (contains live) e)
    | inr other ↦ ground arith
  ])
  | inr new ↦ rw new (contains-append live (k ∷ []) v ∙ ground arith)
]

pub contains-live_addrs :
    (funcs : FuncMap) (live : List String) (u : String) (a : ℕ)
    → contains live u ≡ true
    → func_addr funcs u ≡ some a
    → contains (live_addrs funcs live) a ≡ true
unfolding live_addrs
contains-live_addrs funcs [] u a h k = cc
contains-live_addrs funcs (n ∷ live) u a h k = elim (Bool-cases (str_eq n u)) [
  | inl same ↦
      let e : func_addr funcs n ≡ some a = ap (func_addr funcs) ((str_eq_iff n u).0 same) ∙ k in
      rw (e, live_addrs) (ground arith)
  | inr other ↦
      let later = contains-live_addrs funcs live u a (ground arith) k in
      elim (Option-cases (func_addr funcs n)) [
        | inl missing ↦ rw (missing, live_addrs) later
        | inr (b, found) ↦ rw (found, live_addrs) (ground (arith, later))
      ]
]

-- A live address is the address of a live function.
pub live_addrs-func :
    (funcs : FuncMap) (live : List String) (a : ℕ)
    → contains (live_addrs funcs live) a ≡ true
    → (u : String) × (contains live u ≡ true) × (func_addr funcs u ≡ some a)
unfolding live_addrs
live_addrs-func funcs [] a h = cc
live_addrs-func funcs (n ∷ live) a h = elim (Option-cases (func_addr funcs n)) [
  | inl missing ↦
      let (u, inside, at_a) = live_addrs-func funcs live a (rw (missing, live_addrs) at h) in
      (u, ground arith, at_a)
  | inr (b, found) ↦ elim (Bool-cases (b == a)) [
    | inl same ↦ (n, ground (arith, beq_refl n), found ∙ ap some (ground arith))
    | inr other ↦
        let h' : contains (b ∷ live_addrs funcs live) a ≡ true = rw (found, live_addrs) at h in
        let (u, inside, at_a) = live_addrs-func funcs live a (ground arith) in
        (u, ground arith, at_a)
  ]
]

-- `add_aliases` keeps what is live, adds what is at a live address, and adds nothing else.
pub add_aliases_mono :
    (addrs : List ℕ) (funcs : FuncMap) (live : List String) (v : String)
    → contains live v ≡ true
    → contains (add_aliases addrs funcs live) v ≡ true
unfolding add_aliases
add_aliases_mono addrs [] live v h = h
add_aliases_mono addrs ((k, fi) ∷ funcs) live v h = elim (Bool-cases (contains addrs fi.addr)) [
  | inl hit ↦ rw hit (
      add_aliases_mono addrs funcs (insert_name live k) v
        (contains-insert_name live k v ∙ ground arith))
  | inr miss ↦ rw miss (add_aliases_mono addrs funcs live v h)
]

pub add_aliases-adds :
    (addrs : List ℕ) (funcs : FuncMap) (live : List String) (v : String) (a : ℕ)
    → contains addrs a ≡ true
    → has_func funcs v a ≡ true
    → contains (add_aliases addrs funcs live) v ≡ true
unfolding add_aliases
add_aliases-adds addrs [] live v a h k = cc
add_aliases-adds addrs ((n, fi) ∷ funcs) live v a h k =
    let next = if contains addrs fi.addr then insert_name live n else live in
    elim (Bool-cases (str_eq n v && fi.addr == a)) [
      | inl here ↦
          let at_a : contains addrs fi.addr ≡ true =
            ap (contains addrs) {x = fi.addr} {y = a} (ground arith) ∙ h in
          let added : contains next v ≡ true =
            rw at_a (contains-insert_name live n v ∙ ground arith) in
          add_aliases_mono addrs funcs next v added
      | inr there ↦ add_aliases-adds addrs funcs next v a h (ground arith)
    ]

pub add_aliases-only :
    (addrs : List ℕ) (funcs : FuncMap) (live : List String) (v : String)
    → contains (add_aliases addrs funcs live) v ≡ true
    → (contains live v ≡ true) ⊎ ((a : ℕ) × (contains addrs a ≡ true) × (has_func funcs v a ≡ true))
unfolding add_aliases
add_aliases-only addrs [] live v h = inl h
add_aliases-only addrs ((n, fi) ∷ funcs) live v h =
    let next = if contains addrs fi.addr then insert_name live n else live in
    elim (add_aliases-only addrs funcs next v h) [
      | inr (a, hit, has) ↦ inr (a, hit, ground arith)
      | inl old ↦ elim (Bool-cases (contains addrs fi.addr)) [
        | inr miss ↦ inl (rw miss at old)
        | inl hit ↦ elim (Bool-cases (contains live v)) [
          | inl live_v ↦ inl live_v
          | inr new ↦
              let same : (contains live v || str_eq n v) ≡ true =
                sym (contains-insert_name live n v) ∙ (rw hit at old) in
              inr (fi.addr, hit, ground arith)
        ]
      ]
    ]

-- The new names follow the old ones, each once.
pub add_aliases-extends :
    (addrs : List ℕ) (funcs : FuncMap) (live : List String)
    → (added : List String) × (add_aliases addrs funcs live ≡ live ++ added) × Fresh live added
unfolding add_aliases
add_aliases-extends addrs [] live = ([], sym (append-nil live), tt)
add_aliases-extends addrs ((n, fi) ∷ funcs) live =
    elim (Bool-cases (contains addrs fi.addr && not (contains live n))) [
      | inl new ↦
          let next : (if contains addrs fi.addr then insert_name live n else live)
              ≡ live ++ n ∷ [] =
            ground arith in
          let (added, same, distinct) = add_aliases-extends addrs funcs (live ++ n ∷ []) in
          (n ∷ added, rw next (same ∙ append_assoc live (n ∷ []) added), (ground arith, distinct))
      | inr old ↦
          let next : (if contains addrs fi.addr then insert_name live n else live) ≡ live =
            ground arith in
          rw next (add_aliases-extends addrs funcs live)
    ]

-- The functions of the map that are not live: what bounds the rounds.
pub unlisted : FuncMap → List String → ℕ
unlisted [] live = 0
unlisted ((k, fi) ∷ funcs) live = (if contains live k then 0 else 1) + unlisted funcs live

pub unlisted-le-length : (funcs : FuncMap) (live : List String) → unlisted funcs live ≤ length funcs
unfolding unlisted
unlisted-le-length [] live = omega arith
unlisted-le-length (f ∷ funcs) live = ground (arith, unlisted-le-length funcs live)

abbrev pub Grows : List String → List String → Type 0
Grows live out = (v : String) → contains live v ≡ true → contains out v ≡ true

pub unlisted_mono :
    (funcs : FuncMap) (live out : List String)
    → Grows live out
    → unlisted funcs out ≤ unlisted funcs live
unfolding unlisted
unlisted_mono [] live out grows = omega arith
unlisted_mono ((k, fi) ∷ funcs) live out grows =
    ground (arith, grows k, unlisted_mono funcs live out grows)

pub unlisted-lt :
    (funcs : FuncMap) (live out : List String) (k : String)
    → Grows live out
    → any (λ f. str_eq f.0 k) funcs ≡ true
    → contains live k ≡ false
    → contains out k ≡ true
    → unlisted funcs out < unlisted funcs live
unfolding unlisted
unlisted-lt [] live out k grows has new now = cc
unlisted-lt ((n, fi) ∷ funcs) live out k grows has new now = elim (Bool-cases (str_eq n k)) [
  | inl same ↦
      let e = (str_eq_iff n k).0 same in
      ground (arith, ap (contains live) e, ap (contains out) e, unlisted_mono funcs live out grows)
  | inr other ↦ ground (arith, grows n, unlisted-lt funcs live out k grows)
]

-- A round adds nothing, or a function of the map that was not live.
pub add_aliases-cases :
    (addrs : List ℕ) (funcs : FuncMap) (live : List String)
    → (add_aliases addrs funcs live ≡ live)
      ⊎ ((k : String) × (any (λ f. str_eq f.0 k) funcs ≡ true)
          × (contains live k ≡ false)
          × (contains (add_aliases addrs funcs live) k ≡ true))
unfolding add_aliases
add_aliases-cases addrs [] live = inl refl
add_aliases-cases addrs ((n, fi) ∷ funcs) live =
    elim (Bool-cases (contains addrs fi.addr && not (contains live n))) [
      | inl new ↦
          let next : (if contains addrs fi.addr then insert_name live n else live)
              ≡ live ++ n ∷ [] =
            ground arith in
          inr (
            n,
            ground (arith, beq_refl n),
            ground arith,
            rw next (
                add_aliases_mono addrs funcs (live ++ n ∷ []) n
                  (contains-append live (n ∷ []) n ∙ ground (arith, beq_refl n))),
          )
      | inr old ↦
          let next : (if contains addrs fi.addr then insert_name live n else live) ≡ live =
            ground arith in
          rw next (elim (add_aliases-cases addrs funcs live) [
            | inl same ↦ inl same
            | inr (k, has, new, now) ↦ inr (k, ground arith, new, now)
          ])
    ]

-- ===== src/Analysis/Reachability/Dead.antt =====
-- src/analysis/reachability.rs and roots.rs: which functions the dead map holds.
use mathlib.Core.Logic.{∥∥₁_elim}
use mathlib.Core.HLevel.{⊥_prop}
use trim.Prelude.{
  ℕ, ◌≤◌, Bool, true, false, not, List, [], ◌∷◌, ◌++◌, some, String, ◌≡◌, refl, arith, ◌&&◌, ◌||◌,
  ◌==◌, leb, any, ◌↔◌, Bool-cases, inl, inr, str_eq, str_eq_iff, string_eq, nat_eq, ap, ◌∙◌, subst,
}
use trim.Prelude.Sets.{contains, contains-append}
use trim.Types.{FuncMap, RefGraph}
use trim.Analysis.Reachability.{
  find_dead, is_root_func, root_names, determine_roots, compute_live_set,
}
use trim.Analysis.Reachability.Live.{MustLive, seed}
use trim.Analysis.Reachability.Fixpoint.{compute_live_set_decides}

-- The dead map has that entry.
abbrev pub has_dead : List (String × ℕ × ℕ) → String → ℕ → ℕ → Bool
has_dead dead name addr size = any (λ d. str_eq d.0 name && (d.1 == addr && d.2 == size)) dead

-- The function map has that entry.
abbrev pub has_entry : FuncMap → String → ℕ → ℕ → Bool
has_entry funcs name addr size =
    any (λ f. str_eq f.0 name && (f.1.addr == addr && f.1.size == size)) funcs

pub find_dead_lem :
    (funcs : FuncMap) (live : List String) (name : String) (addr size : ℕ)
    → has_dead (find_dead funcs live) name addr size
      ≡ (has_entry funcs name addr size && (not (contains live name) && leb 4 size))
unfolding find_dead
find_dead_lem [] live name addr size = refl
find_dead_lem ((n, fi) ∷ funcs) live name addr size =
    let ih = find_dead_lem funcs live name addr size in
    elim (Bool-cases (str_eq n name)) [
      | inl same ↦
          let e : contains live n ≡ contains live name =
            ap (contains live) ((str_eq_iff n name).0 same) in
          ground (arith, ih, e)
      | inr other ↦ ground (arith, ih)
    ]

-- A function, given by its name, address and size, is in the dead map that the analysis makes
-- exactly if it is in the function map, has at least 4 bytes, and need not be live: it is no root,
-- and neither the reference graph nor a shared address leads to it from a root.
pub find_dead_decides :
    (roots : List String) (graph : RefGraph) (funcs : FuncMap) (live : List String) (name : String)
    (addr size : ℕ)
    → compute_live_set roots graph funcs ≡ some live
    → (has_dead (find_dead funcs live) name addr size ≡ true)
      ↔ ((has_entry funcs name addr size ≡ true) × (4 ≤ size) × (¬ MustLive roots graph funcs name))
find_dead_decides roots graph funcs live name addr size h =
    let (out, found, decides) = compute_live_set_decides roots graph funcs in
    let e : out ≡ live = cc in
    let decided =
      subst (λ (l : List String). (contains l name ≡ true) ↔ ∥ MustLive roots graph funcs name ∥₁) e
        (decides name) in
    let entry = find_dead_lem funcs live name addr size in
    (
      λ q. (ground arith, ground arith, λ m. let alive = decided.1 ∣ m ∣₁ in ground arith),
      λ (has, big, free).
          let dead : contains live name ≡ false = elim (Bool-cases (contains live name)) [
            | inl alive ↦ absurd (∥∥₁_elim (decided.0 alive) ⊥_prop free)
            | inr gone ↦ gone
          ] in
          ground arith,
    )

root_names-contains :
    (funcs : FuncMap) (name : String)
    → any (λ f. str_eq f.0 name && is_root_func f.0 f.1) funcs ≡ true
    → contains (root_names funcs) name ≡ true
unfolding root_names
root_names-contains [] name h = cc
root_names-contains ((n, fi) ∷ funcs) name h = elim (Bool-cases (is_root_func n fi)) [
  | inl root ↦ rw (root, root_names) (ground (arith, root_names-contains funcs name))
  | inr other ↦ rw (other, root_names) (ground (arith, root_names-contains funcs name))
]

-- What must never be removed: a runtime symbol or a global function of the map, a name that a data
-- section refers to, and a name that code outside every function refers to.
abbrev pub is_kept : FuncMap → List String → List String → String → Bool
is_kept funcs data_refs orphans name =
    any (λ f. str_eq f.0 name && is_root_func f.0 f.1) funcs
    || (contains data_refs name || contains orphans name)

-- With the roots of `determine_roots`, no kept name is in the dead map, whatever the graph and
-- whatever address and size are asked for.
pub kept_never_dead :
    (funcs : FuncMap) (data_refs orphans : List String) (graph : RefGraph) (live : List String)
    (name : String) (addr size : ℕ)
    → compute_live_set (determine_roots funcs data_refs orphans) graph funcs ≡ some live
    → is_kept funcs data_refs orphans name ≡ true
    → has_dead (find_dead funcs live) name addr size ≡ false
unfolding determine_roots
kept_never_dead funcs data_refs orphans graph live name addr size h kept =
    let roots = determine_roots funcs data_refs orphans in
    let is_root : contains roots name ≡ true =
      contains-append (root_names funcs) (data_refs ++ orphans) name
      ∙ ground (arith, contains-append data_refs orphans name, root_names-contains funcs name) in
    elim (Bool-cases (has_dead (find_dead funcs live) name addr size)) [
      | inl dead ↦
          absurd
            (((find_dead_decides roots graph funcs live name addr size h).0 dead).2 (seed is_root))
      | inr free ↦ free
    ]

-- ===== src/Models/Dag/Search/Total.antt =====
-- The search of `_would_create_cycle` in src/models/dag.py ends.
use cyber_security_platform.Prelude.{
  ℕ, zero, suc, ◌≤◌, ◌<◌, String, Bool, true, false, not, Option, some, List, [], ◌∷◌, ◌≡◌, refl,
  arith, contains, ◌==◌, String-IsKey, inl, inr, Bool-cases, filter_by, length,
}
use cyber_security_platform.Models.Dag.{Edge, scan, dfs}
use cyber_security_platform.Models.Dag.Edges.{HasEdge}

-- Every name of the first list is in the second.
abbrev pub Within : List String → List String → Type 0
Within visited seen = (k : String) → contains k visited ≡ true → contains k seen ≡ true

-- The names that are not visited.
abbrev pub unseen : List String → List String → ℕ
unseen names visited = length (filter_by (λ n. not (contains n visited)) names)

pub unseen-le :
    (names visited seen : List String)
    → Within visited seen
    → unseen names seen ≤ unseen names visited
unseen-le [] visited seen h = omega arith
unseen-le (n ∷ names) visited seen h = ground (arith, unseen-le names visited seen h, h n)

pub unseen-lt :
    (node : String) (names visited : List String)
    → contains node names ≡ true
    → contains node visited ≡ false
    → unseen names (node ∷ visited) < unseen names visited
unfolding contains
unseen-lt node [] visited member fresh = cc
unseen-lt node (n ∷ names) visited member fresh =
    let rest = unseen-le names visited (node ∷ visited) (λ k at_k. ground arith) in
    ground (
      arith,
      unseen-lt node names visited,
      rest,
      String-IsKey.same_iff node n,
      String-IsKey.same_iff n node,
    )

pub contains-later :
    (k node : String) (visited : List String)
    → contains k visited ≡ true
    → contains k (node ∷ visited) ≡ true
unfolding contains
contains-later k node visited h = ground arith

module _ (edges : List Edge) (to_task : String) where
  scan-total :
      (f : ℕ) (visit : String → List String → Option (Bool × List String)) (names : List String)
      → ((k : String) (visited : List String)
          → contains k names ≡ true
          → unseen names visited < f
          → (p : Bool × List String) × (visit k visited ≡ some p) × Within visited p.1)
      → (node : String) (es : List Edge) (visited : List String)
      → ((u v : String) → HasEdge es u v → contains v names ≡ true)
      → unseen names visited < f
      → (p : Bool × List String) × (scan edges to_task visit node es visited ≡ some p)
        × Within visited p.1
  unfolding scan
  scan-total f visit names total node [] visited known room =
      ((false, visited), refl, λ k at_k. at_k)
  scan-total f visit names total node (e ∷ es) visited known room =
      elim (Bool-cases (e.0 == node)) [
        | inl here ↦
            let (p, found, grows) = total e.1 visited (known e.0 e.1 (inl (refl, refl))) room in
            let (q, rest, grows') =
              scan-total f visit names total node es p.1 (λ u v h. known u v (inr h))
                (omega (arith, unseen-le names visited p.1 grows)) in
            elim (Bool-cases p.0) [
              | inl yes_found ↦ ((true, p.1), ground arith, grows)
              | inr no_found ↦ (q, ground arith, λ k at_k. grows' k (grows k at_k))
            ]
        | inr other ↦
            let (q, rest, grows) =
              scan-total f visit names total node es visited (λ u v h. known u v (inr h)) room in
            (q, ground arith, grows)
      ]

  pub dfs-total :
      (names : List String)
      → ((u v : String) → HasEdge edges u v → contains v names ≡ true)
      → (f : ℕ) (node : String) (visited : List String) → contains node names ≡ true
      → unseen names visited < f
      → (p : Bool × List String) × (dfs edges to_task f node visited ≡ some p) × Within visited p.1
  unfolding dfs
  dfs-total names known zero node visited member room = elim room [ ]
  dfs-total names known (suc f) node visited member room =
      elim (Bool-cases (contains node visited)) [
        | inl seen ↦ ((node == to_task, visited), ground arith, λ k at_k. at_k)
        | inr fresh ↦
            let less = unseen-lt node names visited member fresh in
            let (p, found, grows) =
              scan-total f (dfs edges to_task f) names (dfs-total names known f) node edges
                (node ∷ visited) known (omega arith) in
            (p, ground arith, λ k at_k. grows k (contains-later k node visited at_k))
      ]

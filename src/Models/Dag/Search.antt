-- ===== src/Models/Dag/Search.antt =====
-- The depth-first search of `_would_create_cycle` in src/models/dag.py: it ends, and what it finds.
pub mod Total
use cyber_security_platform.Prelude.{
  ℕ, zero, suc, ◌+◌, ◌≤◌, ◌<◌, String, Bool, true, false, not, Option, some, List, [], ◌∷◌, map,
  ◌≡◌, ◌⊎◌, refl, ap, arith, contains, ◌==◌, String-IsKey, Option-cases, inl, inr, Bool-cases,
  length, same_refl, length-filter_by-le,
}
use cyber_security_platform.Models.Dag.{Edge, Dag, scan, dfs, would_create_cycle}
use cyber_security_platform.Models.Dag.Edges.{HasEdge, Reaches, once, further}
pub use cyber_security_platform.Models.Dag.Search.Total.{
  Within, unseen, unseen-le, unseen-lt, contains-later, dfs-total,
}

module _ (edges : List Edge) (to_task : String) where
  scan-found :
      (visit : String → List String → Option (Bool × List String))
      → ((k : String) (visited seen : List String)
          → visit k visited ≡ some (true, seen)
          → Reaches edges k to_task ⊎ (k ≡ to_task))
      → (node : String) (es : List Edge) (visited seen : List String)
      → ((v : String) → HasEdge es node v → HasEdge edges node v)
      → scan edges to_task visit node es visited ≡ some (true, seen)
      → Reaches edges node to_task
  unfolding scan
  scan-found visit finds node [] visited seen part h = cc
  scan-found visit finds node (e ∷ es) visited seen part h =
      let later = λ (v : String) (r : HasEdge es node v). part v (inr r) in
      elim (Bool-cases (e.0 == node)) [
        | inr other ↦ scan-found visit finds node es visited seen later (ground arith)
        | inl here ↦ elim (Option-cases (visit e.1 visited)) [
          | inl missing ↦ absurd (ground arith)
          | inr (p, found) ↦
              let edge : HasEdge edges node e.1 =
                part e.1 (inl ((String-IsKey.same_iff e.0 node).0 here, refl)) in
              elim (Bool-cases p.0) [
                | inr unfound ↦ scan-found visit finds node es p.1 seen later (ground arith)
                | inl hit ↦ elim (finds e.1 visited p.1 (ground arith)) [
                  | inl r ↦ further edge r
                  | inr eq ↦ once (rw (← eq) edge)
                ]
              ]
        ]
      ]

  dfs-found :
      (f : ℕ) (node : String) (visited seen : List String)
      → dfs edges to_task f node visited ≡ some (true, seen)
      → Reaches edges node to_task ⊎ (node ≡ to_task)
  unfolding dfs
  dfs-found zero node visited seen h = cc
  dfs-found (suc f) node visited seen h = elim (Bool-cases (contains node visited)) [
    | inl again ↦ inr (ground (arith, String-IsKey.same_iff node to_task))
    | inr fresh ↦ inl (
        scan-found (dfs edges to_task f) (dfs-found f) node edges (node ∷ visited) seen (λ v r. r)
          (ground arith))
  ]

  -- The search from a node that is not visited.
  first-found :
      (f : ℕ) (node : String) (seen : List String)
      → dfs edges to_task f node [] ≡ some (true, seen)
      → Reaches edges node to_task
  unfolding dfs contains
  first-found zero node seen h = cc
  first-found (suc f) node seen h =
      scan-found (dfs edges to_task f) (dfs-found f) node edges (node ∷ []) seen (λ v r. r) h

  scan-none :
      (visit : String → List String → Option (Bool × List String)) (node : String) (es : List Edge)
      (visited : List String)
      → ((v : String) → HasEdge es node v → ⊥)
      → scan edges to_task visit node es visited ≡ some (false, visited)
  unfolding scan
  scan-none visit node [] visited leaf = refl
  scan-none visit node (e ∷ es) visited leaf = elim (Bool-cases (e.0 == node)) [
    | inl here ↦ absurd (leaf e.1 (inl ((String-IsKey.same_iff e.0 node).0 here, refl)))
    | inr other ↦ ground (arith, scan-none visit node es visited (λ v h. leaf v (inr h)))
  ]

dfs-leaf :
    (edges : List Edge) (to_task : String) (f : ℕ) (node : String)
    → 0 < f
    → ((v : String) → HasEdge edges node v → ⊥)
    → dfs edges to_task f node [] ≡ some (false, node ∷ [])
unfolding dfs contains
dfs-leaf edges to_task zero node room leaf = elim room [ ]
dfs-leaf edges to_task (suc f) node room leaf =
    scan-none edges to_task (dfs edges to_task f) node edges (node ∷ []) leaf

pub targets-contains :
    (edges : List Edge) (u v : String)
    → HasEdge edges u v
    → contains v (map (λ (e : Edge). e.1) edges) ≡ true
unfolding contains
targets-contains [] u v h = elim h [ ]
targets-contains (e ∷ es) u v h =
    ground (arith, targets-contains es u v, String-IsKey.same_iff v e.1)

pub length-targets : (edges : List Edge) → length (map (λ (e : Edge). e.1) edges) ≡ length edges
length-targets [] = refl
length-targets (e ∷ es) = ap suc (length-targets es)

found-answer :
    (from_task to_task : String) (g : Dag) (p : Bool × List String)
    → dfs g.edges to_task (length g.edges + 2) from_task [] ≡ some p
    → would_create_cycle from_task to_task g ≡ some p.0
unfolding would_create_cycle
found-answer from_task to_task g p found = ground arith

-- The search of `_would_create_cycle` ends in every graph.
pub would_create_cycle-total :
    (from_task to_task : String) (g : Dag)
    → (found : Bool) × (would_create_cycle from_task to_task g ≡ some found)
would_create_cycle-total from_task to_task g =
    let targets = map (λ (e : Edge). e.1) g.edges in
    let names = from_task ∷ targets in
    let (p, found, grows) =
      dfs-total g.edges to_task names
        (λ u v h. contains-later v from_task targets (targets-contains g.edges u v h))
        (length g.edges + 2) from_task [] (unfold contains in ground (arith, same_refl from_task))
        (omega
          (arith, length-targets g.edges, length-filter_by-le (λ n. not (contains n [])) names)) in
    (p.0, found-answer from_task to_task g p found)

-- It finds a cycle only where `to_task` is behind `from_task`.
pub would_create_cycle-Reaches :
    (from_task to_task : String) (g : Dag)
    → would_create_cycle from_task to_task g ≡ some true
    → Reaches g.edges from_task to_task
unfolding would_create_cycle
would_create_cycle-Reaches from_task to_task g h =
    elim (Option-cases (dfs g.edges to_task (length g.edges + 2) from_task [])) [
      | inl missing ↦ absurd (ground arith)
      | inr (p, found) ↦
          first-found g.edges to_task (length g.edges + 2) from_task p.1 (ground arith)
    ]

-- From a task with no outgoing edge it finds none.
pub would_create_cycle-leaf :
    (from_task to_task : String) (g : Dag)
    → ((v : String) → HasEdge g.edges from_task v → ⊥)
    → would_create_cycle from_task to_task g ≡ some false
would_create_cycle-leaf from_task to_task g leaf =
    found-answer from_task to_task g (false, from_task ∷ [])
      (dfs-leaf g.edges to_task (length g.edges + 2) from_task (omega arith) leaf)

-- ===== src/Agents/DagValidator/Search.antt =====
-- What `_find_cycle` of src/agents/verifier/dag_validator.py finds.
use cyber_security_platform.Prelude.{
  ℕ, zero, suc, String, true, Option, some, List, [], ◌∷◌, ◌++◌, ◌≡◌, ◌≢◌, ◌⊎◌, inl, inr, sym,
  subst, arith, contains, String-IsKey, Bool-cases, Option-cases, same_refl,
}
use cyber_security_platform.Prelude.Sets.{contains-append}
use cyber_security_platform.Models.Dag.{Edge}
use cyber_security_platform.Models.Dag.Edges.{HasEdge, Reaches, once, further, then_edge}
use cyber_security_platform.Agents.DagValidator.{outgoing, follow, dfs, over_nodes}

pub outgoing-HasEdge :
    (u v : String) (es : List Edge) → contains v (outgoing u es) ≡ true → HasEdge es u v
unfolding outgoing contains
outgoing-HasEdge u v [] h = cc
outgoing-HasEdge u v (e ∷ es) h =
    ground
      (arith, outgoing-HasEdge u v es, String-IsKey.same_iff e.0 u, String-IsKey.same_iff v e.1)

pub contains-outgoing :
    (u v : String) (es : List Edge) → HasEdge es u v → contains v (outgoing u es) ≡ true
unfolding outgoing contains
contains-outgoing u v [] h = elim h [ ]
contains-outgoing u v (e ∷ es) h =
    ground
      (arith, contains-outgoing u v es, String-IsKey.same_iff e.0 u, String-IsKey.same_iff v e.1)

module _ (edges : List Edge) where
  -- Every chain of edges from the node ends.
  pub data Done : String → Type 0 where
    done : {u : String} → ((v : String) → HasEdge edges u v → Done v) → Done u

  pub Done-acyclic : {u : String} → Done u → Reaches edges u u → ⊥
  Done-acyclic (done next) (once e) = Done-acyclic (next _ e) (once e)
  Done-acyclic (done next) (further e r) = Done-acyclic (next _ e) (then_edge r e)

  -- A node of `path` is the last one, or leads to it.
  abbrev Leads : List String → String → Type 0
  Leads path node = (x : String) → contains x path ≡ true → (x ≡ node) ⊎ Reaches edges x node

  abbrev Before : List String → String → Type 0
  Before path node = (x : String) → contains x path ≡ true → Reaches edges x node

  before :
      (path : List String) (node n : String)
      → Leads path node
      → HasEdge edges node n
      → Before path n
  before path node n leads edge x at_x = elim (leads x at_x) [
    | inl same ↦ once (subst (λ (y : String). HasEdge edges y n) (sym same) edge)
    | inr r ↦ then_edge r edge
  ]

  pub contains-end :
      (x node : String) (path : List String)
      → contains x (path ++ node ∷ []) ≡ true
      → (contains x path ≡ true) ⊎ (x ≡ node)
  contains-end x node path h = elim (Bool-cases (contains x path)) [
    | inl on_path ↦ inl on_path
    | inr off ↦ inr (
        unfold contains in
        ground (arith, contains-append x path (node ∷ []), String-IsKey.same_iff x node))
  ]

  Leads-end :
      (path : List String) (node : String) → Before path node → Leads (path ++ node ∷ []) node
  Leads-end path node h x at_x = elim (contains-end x node path at_x) [
    | inl on_path ↦ inr (h x on_path)
    | inr same ↦ inl same
  ]

  follow-found :
      (visit : String → List String → List String → Option (Option (List String) × List String))
      → ((n : String) (path visited cycle seen : List String)
          → Before path n
          → visit n path visited ≡ some (some cycle, seen)
          → (t : String) × Reaches edges t t)
      → (node : String) (path ns visited cycle seen : List String) → Leads path node
      → ((n : String) → contains n ns ≡ true → HasEdge edges node n)
      → follow visit path ns visited ≡ some (some cycle, seen)
      → (t : String) × Reaches edges t t
  unfolding follow
  follow-found visit finds node path [] visited cycle seen leads known h = absurd (ground arith)
  follow-found visit finds node path (n ∷ ns) visited cycle seen leads known h =
      let edge = known n (unfold contains in ground (arith, same_refl n)) in
      let later = λ (m : String) (at : contains m ns ≡ true).
        known m (unfold contains in ground (arith, at)) in
      elim (Bool-cases (contains n visited)) [
        | inl old ↦ elim (Bool-cases (contains n path)) [
          | inl on_path ↦ elim (leads n on_path) [
            | inl same ↦ (n, once (subst (λ (x : String). HasEdge edges x n) (sym same) edge))
            | inr r ↦ (n, then_edge r edge)
          ]
          | inr off ↦
              follow-found visit finds node path ns visited cycle seen leads later (ground arith)
        ]
        | inr new ↦ elim (Option-cases (visit n path visited)) [
          | inl missing ↦ absurd (ground arith)
          | inr (p, found) ↦ elim (Option-cases p.0) [
            | inr (c, it) ↦
                finds n path visited c p.1 (before path node n leads edge) (ground arith)
            | inl nothing ↦
                follow-found visit finds node path ns p.1 cycle seen leads later (ground arith)
          ]
        ]
      ]

  dfs-found :
      (f : ℕ) (n : String) (path visited cycle seen : List String)
      → Before path n
      → dfs edges f n path visited ≡ some (some cycle, seen)
      → (t : String) × Reaches edges t t
  unfolding dfs
  dfs-found zero n path visited cycle seen h e = absurd (ground arith)
  dfs-found (suc f) n path visited cycle seen h e =
      follow-found (dfs edges f) (dfs-found f) n (path ++ n ∷ []) (outgoing n edges) (n ∷ visited)
        cycle seen (Leads-end path n h) (λ m at_m. outgoing-HasEdge n m edges at_m) e

  pub over_nodes-found :
      (f : ℕ) (nodes visited : List String) (cycle : List String)
      → over_nodes edges f nodes visited ≡ some cycle
      → cycle ≢ []
      → (t : String) × Reaches edges t t
  unfolding over_nodes
  over_nodes-found f [] visited cycle h some_cycle = absurd (some_cycle (ground arith))
  over_nodes-found f (n ∷ ns) visited cycle h some_cycle = elim (Bool-cases (contains n visited)) [
    | inl old ↦ over_nodes-found f ns visited cycle (ground arith) some_cycle
    | inr new ↦ elim (Option-cases (dfs edges f n [] visited)) [
      | inl missing ↦ absurd (ground arith)
      | inr (p, found) ↦ elim (Option-cases p.0) [
        | inr (c, it) ↦
            dfs-found f n [] visited c p.1 (λ x at_x. absurd (unfold contains in ground arith))
              (ground arith)
        | inl nothing ↦ over_nodes-found f ns p.1 cycle (ground arith) some_cycle
      ]
    ]
  ]

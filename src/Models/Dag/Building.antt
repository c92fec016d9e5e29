-- ===== src/Models/Dag/Building.antt =====
-- `add_node` and `add_edge` of src/models/dag.py.
use cyber_security_platform.Prelude.{
  ℕ, String, true, false, some, [], ◌∷◌, ◌++◌, ◌≡◌, ◌⊎◌, ap, subst, ◌∙◌, arith, String-IsKey,
  Option-cases, inl, inr, Bool-cases,
}
use cyber_security_platform.Prelude.Dict
use cyber_security_platform.Prelude.Dict.{Dict, get-put}
use cyber_security_platform.Models.Dag.{
  TaskNode, Dag, ok, raised, deep, would_cycle, would_create_cycle, depend, with_edge, add_edge,
  get_execution_order,
}
use cyber_security_platform.Models.Dag.Edges.{
  HasEdge, Reaches, once, then_edge, HasEdge-append, Reaches-left,
}
use cyber_security_platform.Models.Dag.Search.{
  would_create_cycle-total, would_create_cycle-Reaches, would_create_cycle-leaf,
}
use cyber_security_platform.Models.Dag.Execution.{get_execution_order-cycle}

pub has-depend :
    (from_task to_task name : String) (nodes : Dict String TaskNode)
    → Dict.has name (depend from_task to_task nodes) ≡ Dict.has name nodes
unfolding depend Dict.has
has-depend from_task to_task name nodes = elim (Option-cases (Dict.get to_task nodes)) [
  | inl absent ↦ ground arith
  | inr (n, found) ↦
      let after : TaskNode = record n { dependencies = n.dependencies ++ from_task ∷ [] } in
      ground (arith, get-put to_task name after nodes, String-IsKey.same_iff to_task name)
]

module _ (from_task to_task : String) (g : Dag) (has_from : Dict.has from_task g.nodes ≡ true)
    (has_to : Dict.has to_task g.nodes ≡ true) where
  pub add_edge_accepts :
      would_create_cycle from_task to_task g ≡ some false
      → add_edge from_task to_task g ≡ ok (with_edge from_task to_task g)
  unfolding add_edge
  add_edge_accepts h = ground arith

  add_edge_refuses :
      would_create_cycle from_task to_task g ≡ some true
      → add_edge from_task to_task g ≡ raised would_cycle
  unfolding add_edge
  add_edge_refuses h = ground arith

-- Between two tasks of the graph an edge is added, or it is refused as one that would create a cycle,
-- and then a chain of edges leads from `from_task` to `to_task` already. The search always ends.
pub add_edge_lem :
    (from_task to_task : String) (g : Dag)
    → Dict.has from_task g.nodes ≡ true
    → Dict.has to_task g.nodes ≡ true
    → (add_edge from_task to_task g ≡ ok (with_edge from_task to_task g))
      ⊎ ((add_edge from_task to_task g ≡ raised would_cycle) × Reaches g.edges from_task to_task)
add_edge_lem from_task to_task g has_from has_to =
    let (found, h) = would_create_cycle-total from_task to_task g in
    elim (Bool-cases found) [
      | inl found_it ↦
          let h' = h ∙ ap some found_it in
          inr (
            add_edge_refuses from_task to_task g has_from has_to h',
            would_create_cycle-Reaches from_task to_task g h',
          )
      | inr nothing ↦
          inl (add_edge_accepts from_task to_task g has_from has_to (h ∙ ap some nothing))
    ]

-- The check misses cycles: an edge from a task with no outgoing edge is added whatever is behind
-- `to_task`. Where that task is `to_task` itself, or behind it, the edge closes a cycle, and the
-- graph has no execution order from then on.
pub add_edge-cycle :
    (from_task to_task : String) (g : Dag)
    → Dict.has from_task g.nodes ≡ true
    → Dict.has to_task g.nodes ≡ true
    → ((v : String) → HasEdge g.edges from_task v → ⊥)
    → (from_task ≡ to_task) ⊎ Reaches g.edges to_task from_task
    → let g' = with_edge from_task to_task g in
      (add_edge from_task to_task g ≡ ok g')
      × Reaches g'.edges to_task to_task
      × ((fuel : ℕ) → get_execution_order fuel g' ≡ raised deep)
unfolding with_edge
add_edge-cycle from_task to_task g has_from has_to leaf behind =
    let last = HasEdge-append from_task to_task g.edges in
    let cycle : Reaches (g.edges ++ (from_task, to_task) ∷ []) to_task to_task = elim behind [
      | inl same ↦ once (
          subst (λ (x : String). HasEdge (g.edges ++ (from_task, to_task) ∷ []) x to_task) same
            last)
      | inr r ↦ then_edge (Reaches-left ((from_task, to_task) ∷ []) r) last
    ] in
    let there : Dict.has to_task (with_edge from_task to_task g).nodes ≡ true =
      has-depend from_task to_task to_task g.nodes ∙ has_to in
    (
      add_edge_accepts from_task to_task g has_from has_to
          (would_create_cycle-leaf from_task to_task g leaf),
      cycle,
      λ fuel. get_execution_order-cycle fuel (with_edge from_task to_task g) to_task there cycle,
    )

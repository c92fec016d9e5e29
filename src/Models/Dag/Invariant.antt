-- ===== src/Models/Dag/Invariant.antt =====
-- What graphs that `add_node` and `add_edge` of src/models/dag.py have built keep to.
use cyber_security_platform.Prelude.{
  String, true, false, some, List, [], ◌∷◌, ◌++◌, ◌≡◌, ◌⊎◌, refl, sym, ◌∙◌, arith, ◌==◌,
  String-IsKey, Option-cases, inl, inr, Bool-cases, length, same_refl, contains,
}
use cyber_security_platform.Prelude.Dict
use cyber_security_platform.Prelude.Dict.{Dict, get-put}
use cyber_security_platform.Models.Dag.{
  TaskNode, Edge, Dag, ok, init, depend, with_edge, add_edge, add_node, update_estimates, total,
  would_create_cycle,
}
use cyber_security_platform.Models.Dag.Edges.{HasEdge}
use cyber_security_platform.Models.Dag.Building.{has-depend}

-- The graphs that calls make of the empty one.
pub data Built : Dag → Type 0 where
  empty : {g : Dag} → g ≡ init → Built g
  with_node : {g g' : Dag} (node : TaskNode) → Built g → add_node node g ≡ ok g' → Built g'
  joined : {g g' : Dag} (u v : String) → Built g → add_edge u v g ≡ ok g' → Built g'

-- The counter and the estimate are those of the tasks; an edge joins two tasks, and the second has
-- the first among its dependencies.
pub record IsSound (g : Dag) : Type 0 where
  pub tasks : g.total_tasks ≡ length g.nodes
  pub cost : g.estimated_total_cost ≡ total (Dict.values g.nodes)
  pub source : (u v : String) → HasEdge g.edges u v → Dict.has u g.nodes ≡ true
  pub target :
      (u v : String)
      → HasEdge g.edges u v
      → (n : TaskNode) × (Dict.get v g.nodes ≡ some n) × (contains u n.dependencies ≡ true)

contains-append_self : (u : String) (ds : List String) → contains u (ds ++ u ∷ []) ≡ true
unfolding contains
contains-append_self u [] = ground (arith, same_refl u)
contains-append_self u (d ∷ ds) = ground (arith, contains-append_self u ds)

contains-append_left :
    (u : String) (ds es : List String) → contains u ds ≡ true → contains u (ds ++ es) ≡ true
unfolding contains
contains-append_left u [] es h = cc
contains-append_left u (d ∷ ds) es h = ground (arith, contains-append_left u ds es)

HasEdge-last :
    (es : List Edge) (a b u v : String)
    → HasEdge (es ++ (a, b) ∷ []) u v
    → HasEdge es u v ⊎ ((a ≡ u) × (b ≡ v))
HasEdge-last [] a b u v (inl h) = inr h
HasEdge-last [] a b u v (inr h) = elim h [ ]
HasEdge-last (e ∷ es) a b u v (inl h) = inl (inl h)
HasEdge-last (e ∷ es) a b u v (inr h) = elim (HasEdge-last es a b u v h) [
  | inl before ↦ inl (inr before)
  | inr last ↦ inr last
]

length-put :
    (name : String) (n : TaskNode) (nodes : Dict String TaskNode) {old : TaskNode}
    → Dict.get name nodes ≡ some old
    → length (Dict.put name n nodes) ≡ length nodes
unfolding Dict.get Dict.put
length-put name n [] h = cc
length-put name n ((k, m) ∷ nodes) {old} h = ground (arith, length-put name n nodes {old = old})

length-depend :
    (from_task to_task : String) (nodes : Dict String TaskNode)
    → length (depend from_task to_task nodes) ≡ length nodes
unfolding depend
length-depend from_task to_task nodes = elim (Option-cases (Dict.get to_task nodes)) [
  | inl absent ↦ ground arith
  | inr (n, found) ↦
      let after : TaskNode = record n { dependencies = n.dependencies ++ from_task ∷ [] } in
      ground (arith, length-put to_task after nodes found)
]

abbrev extended : TaskNode → Dag → Dag
extended node g =
    let nodes = Dict.put node.task_id node g.nodes in
    update_estimates (record g { nodes = nodes; total_tasks = length nodes })

add_node_ok :
    (node : TaskNode) (g g' : Dag)
    → add_node node g ≡ ok g'
    → (Dict.has node.task_id g.nodes ≡ false) × (extended node g ≡ g')
unfolding add_node
add_node_ok node g g' e = elim (Bool-cases (Dict.has node.task_id g.nodes)) [
  | inl there ↦ absurd (ground arith)
  | inr absent ↦ (absent, ground arith)
]

extended-IsSound :
    (node : TaskNode) (g : Dag)
    → Dict.has node.task_id g.nodes ≡ false
    → IsSound g
    → IsSound (extended node g)
unfolding update_estimates Dict.has
extended-IsSound node g absent h = record {
  tasks = refl;
  cost = refl;
  source = λ u v edge. ground (
    arith,
    get-put node.task_id u node g.nodes,
    h.source u v edge,
    String-IsKey.same_iff node.task_id u,
  );
  target = λ u v edge.
      let (n, found, depends) = h.target u v edge in
      (
        n,
        ground (arith, get-put node.task_id v node g.nodes, String-IsKey.same_iff node.task_id v),
        depends,
      );
}

add_edge_ok :
    (u v : String) (g g' : Dag)
    → add_edge u v g ≡ ok g'
    → (Dict.has u g.nodes ≡ true) × (Dict.has v g.nodes ≡ true) × (with_edge u v g ≡ g')
unfolding add_edge
add_edge_ok u v g g' e = elim (Bool-cases (Dict.has u g.nodes)) [
  | inr absent ↦ absurd (ground arith)
  | inl here ↦ elim (Bool-cases (Dict.has v g.nodes)) [
    | inr absent ↦ absurd (ground arith)
    | inl there ↦ elim (Option-cases (would_create_cycle u v g)) [
      | inl endless ↦ absurd (ground arith)
      | inr (found, answer) ↦ (here, there, ground arith)
    ]
  ]
]

-- Joining keeps what a task depends on, and adds `from_task` to `to_task`.
depend-get :
    (from_task to_task name u : String) (nodes : Dict String TaskNode) (n : TaskNode)
    → Dict.get name nodes ≡ some n
    → (contains u n.dependencies ≡ true) ⊎ ((from_task ≡ u) × (to_task ≡ name))
    → (m : TaskNode) × (Dict.get name (depend from_task to_task nodes) ≡ some m)
      × (contains u m.dependencies ≡ true)
unfolding depend
depend-get from_task to_task name u nodes n found why =
    elim (Option-cases (Dict.get to_task nodes)) [
      | inl absent ↦ elim why [
        | inl h ↦ (n, ground arith, h)
        | inr same ↦
            absurd (let moved : Dict.get to_task nodes ≡ some n = rw same.1 found in ground arith)
      ]
      | inr (t, there) ↦
          let after : TaskNode = record t { dependencies = t.dependencies ++ from_task ∷ [] } in
          let put = get-put to_task name after nodes in
          elim (Bool-cases (to_task == name)) [
            | inl same ↦
                let eq : to_task ≡ name = (String-IsKey.same_iff to_task name).0 same in
                let here : Dict.get name nodes ≡ some t = rw (← eq) there in
                let node : t ≡ n = ground arith in
                (
                  after,
                  ground (arith, put),
                  elim why [
                    | inl h ↦ contains-append_left u t.dependencies (from_task ∷ []) (rw node h)
                    | inr at ↦ rw (← at.0) (contains-append_self from_task t.dependencies)
                  ],
                )
            | inr differs ↦ elim why [
              | inl h ↦ (n, ground (arith, put), h)
              | inr at ↦ absurd (ground (arith, String-IsKey.same_iff to_task name))
            ]
          ]
    ]

has-get :
    (name : String) (nodes : Dict String TaskNode)
    → Dict.has name nodes ≡ true
    → (n : TaskNode) × (Dict.get name nodes ≡ some n)
unfolding Dict.has
has-get name nodes h = elim (Option-cases (Dict.get name nodes)) [
  | inl absent ↦ absurd (ground arith)
  | inr found ↦ found
]

with_edge-IsSound :
    (from_task to_task : String) (g : Dag)
    → Dict.has from_task g.nodes ≡ true
    → Dict.has to_task g.nodes ≡ true
    → IsSound g
    → IsSound (with_edge from_task to_task g)
unfolding with_edge update_estimates
with_edge-IsSound from_task to_task g has_from has_to h = record {
  tasks = h.tasks ∙ sym (length-depend from_task to_task g.nodes);
  cost = refl;
  source = λ u v edge.
      has-depend from_task to_task u g.nodes
      ∙ elim (HasEdge-last g.edges from_task to_task u v edge) [
        | inl before ↦ h.source u v before
        | inr last ↦ rw (← last.0) has_from
      ];
  target = λ u v edge. elim (HasEdge-last g.edges from_task to_task u v edge) [
    | inl before ↦
        let (n, found, depends) = h.target u v before in
        depend-get from_task to_task v u g.nodes n found (inl depends)
    | inr last ↦
        let (n, found) = has-get to_task g.nodes has_to in
        depend-get from_task to_task v u g.nodes n (rw (← last.1) found) (inr last)
  ];
}

-- In a graph that calls of `add_node` and `add_edge` have built, the counter of tasks and the
-- estimate of the cost are those of the nodes, and each edge joins two tasks, of which the second
-- has the first among its dependencies.
pub Built-IsSound : {g : Dag} → Built g → IsSound g
Built-IsSound (empty e) = rw e (record {
  tasks = refl;
  cost = refl;
  source = λ u v h. elim h [ ];
  target = λ u v h. elim h [ ];
})
Built-IsSound (with_node {g} {g'} node b e) =
    let (absent, same) = add_node_ok node g g' e in
    rw (← same) (extended-IsSound node g absent (Built-IsSound b))
Built-IsSound (joined {g} {g'} u v b e) =
    let (here, there, same) = add_edge_ok u v g g' e in
    rw (← same) (with_edge-IsSound u v g here there (Built-IsSound b))

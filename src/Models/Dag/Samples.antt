-- ===== src/Models/Dag/Samples.antt =====
-- A plan of three tasks.
use cyber_security_platform.Prelude.{
  ℕ, ◌<◌, true, String, List, [], ◌∷◌, ◌≡◌, ◌⊎◌, inl, inr, refl, arith, String-IsKey, contains,
  ◌==◌, if◌then◌else◌,
}
use cyber_security_platform.Prelude.Dict
use text.Mathlib.TextEquality.{eq_iff}
use cyber_security_platform.Models.Dag.{
  TaskNode, Dag, Result, ok, raised, deep, would_cycle, init, add_node, add_edge, update_estimates,
  would_create_cycle, scan, dfs, depend, with_edge, get_level, highest, incoming, all_levels,
  groups, get_execution_order,
}
use cyber_security_platform.Models.Dag.Edges.{HasEdge, Reaches, once, further}
use cyber_security_platform.Models.Dag.Order.{Runs}
use cyber_security_platform.Models.Dag.Execution.{
  get_execution_order-HasEdge, get_execution_order-cycle, get_execution_order-total,
}
use cyber_security_platform.Models.Dag.Building.{add_edge_lem, add_edge-cycle}
use cyber_security_platform.Models.Dag.Invariant.{
  Built, empty, with_node, joined, IsSound, Built-IsSound,
}

program : Unit {0}
unfolding add_node add_edge update_estimates would_create_cycle scan dfs depend with_edge get_level
    highest incoming all_levels groups get_execution_order contains Dict.get Dict.put Dict.has
program = tt

abbrev task : String → ℕ → TaskNode
task id cost = record { task_id = id; dependencies = []; estimated_cost = cost }

abbrev or_init : Result Dag → Dag
or_init (ok g) = g
or_init (raised e) = init

abbrev tasks : Dag
tasks = or_init (
    add_node (task "report" 1)
      (or_init (add_node (task "scan" 2) (or_init (add_node (task "recon" 3) init)))))

-- recon → scan → report
abbrev plan : Dag
plan = or_init (add_edge "scan" "report" (or_init (add_edge "recon" "scan" tasks)))

plan_order : get_execution_order 5 plan ≡ ok (("recon" ∷ []) ∷ ("scan" ∷ []) ∷ ("report" ∷ []) ∷ [])
unfolding program
plan_order = refl

plan_Built : Built plan
unfolding program
plan_Built =
    joined "scan" "report"
      (joined "recon" "scan"
        (with_node (task "report" 1)
          (with_node (task "scan" 2) (with_node (task "recon" 3) (empty refl) refl) refl) refl)
        refl)
      refl

Built-IsSound_example : IsSound plan
Built-IsSound_example = Built-IsSound plan_Built

plan_known :
    (Dict.has "recon" plan.nodes ≡ true)
    × (Dict.has "scan" plan.nodes ≡ true)
    × (Dict.has "report" plan.nodes ≡ true)
unfolding program
plan_known = (refl, refl, refl)

plan_edges : HasEdge plan.edges "recon" "scan" × HasEdge plan.edges "scan" "report"
unfolding program
plan_edges = (inl (refl, refl), inr (inl (refl, refl)))

get_execution_order-HasEdge_example :
    let order : List (List String) = ("recon" ∷ []) ∷ ("scan" ∷ []) ∷ ("report" ∷ []) ∷ [] in
    (i : ℕ) × (j : ℕ) × (i < j) × Runs "recon" i order × Runs "scan" j order
get_execution_order-HasEdge_example =
    get_execution_order-HasEdge 5 plan (("recon" ∷ []) ∷ ("scan" ∷ []) ∷ ("report" ∷ []) ∷ [])
      "recon" "scan" plan_order plan_known.0 plan_known.1 plan_edges.0

abbrev rank : String → ℕ
rank t = if t == "recon" then 0 else if t == "scan" then 1 else 2

plan_rises : (u v : String) → HasEdge plan.edges u v → rank u < rank v
unfolding program
plan_rises u v (inl (p, q)) = rw (← p) (rw (← q) (omega arith))
plan_rises u v (inr (inl (p, q))) = rw (← p) (rw (← q) (omega arith))
plan_rises u v (inr (inr h)) = elim h [ ]

plan_low : (u : String) → contains u (Dict.keys plan.nodes) ≡ true → rank u < 5
plan_low u h = ground arith

get_execution_order-total_example :
    (order : List (List String)) × (get_execution_order 5 plan ≡ ok order)
get_execution_order-total_example =
    get_execution_order-total 5 plan rank "scan" plan_known.1 plan_rises plan_low

add_edge_lem_example :
    (add_edge "recon" "report" plan ≡ ok (with_edge "recon" "report" plan))
    ⊎ ((add_edge "recon" "report" plan ≡ raised would_cycle) × Reaches plan.edges "recon" "report")
add_edge_lem_example = add_edge_lem "recon" "report" plan plan_known.0 plan_known.2

plan_leaf : (v : String) → HasEdge plan.edges "report" v → ⊥
unfolding program
plan_leaf v (inl (p, q)) = cc ((eq_iff "recon" "report").1 p)
plan_leaf v (inr (inl (p, q))) = cc ((eq_iff "scan" "report").1 p)
plan_leaf v (inr (inr h)) = elim h [ ]

-- The edge report → recon closes the cycle and is accepted.
add_edge-cycle_example :
    let g' = with_edge "report" "recon" plan in
    (add_edge "report" "recon" plan ≡ ok g')
    × Reaches g'.edges "recon" "recon"
    × ((fuel : ℕ) → get_execution_order fuel g' ≡ raised deep)
add_edge-cycle_example =
    add_edge-cycle "report" "recon" plan plan_known.2 plan_known.0 plan_leaf
      (inr (further plan_edges.0 (once plan_edges.1)))

abbrev alone : Dag
alone = with_edge "scan" "scan" tasks

alone_cycle : (Dict.has "scan" alone.nodes ≡ true) × Reaches alone.edges "scan" "scan"
unfolding program
alone_cycle = (refl, once (inl (refl, refl)))

get_execution_order-cycle_example : get_execution_order 1000 alone ≡ raised deep
get_execution_order-cycle_example =
    get_execution_order-cycle 1000 alone "scan" alone_cycle.0 alone_cycle.1

-- ===== src/Agents/DagValidator/Samples.antt =====
-- A graph with a cycle.
use cyber_security_platform.Prelude.{
  true, some, String, List, [], ◌∷◌, ◌≡◌, ◌↔◌, refl, inl, inr, contains, String-IsKey,
}
use cyber_security_platform.Prelude.Dict
use cyber_security_platform.Models.Dag.{TaskNode, Dag}
use cyber_security_platform.Models.Dag.Edges.{HasEdge, Reaches}
use cyber_security_platform.Agents.DagValidator.{
  outgoing, from_first, follow, dfs, over_nodes, find_cycle,
}
use cyber_security_platform.Agents.DagValidator.Ends.{find_cycle_lem}

program : Unit {0}
unfolding outgoing from_first follow dfs over_nodes find_cycle contains Dict.get Dict.has
program = tt

abbrev task : String → TaskNode
task id = record { task_id = id; dependencies = []; estimated_cost = 0 }

abbrev looped : Dag
looped = record {
  nodes = ("a", task "a") ∷ ("b", task "b") ∷ ("c", task "c") ∷ [];
  edges = ("a", "b") ∷ ("b", "c") ∷ ("c", "b") ∷ [];
  total_tasks = 3;
  estimated_total_cost = 0;
}

looped_cycle : find_cycle looped ≡ some ("b" ∷ "c" ∷ "b" ∷ [])
unfolding program
looped_cycle = refl

looped_sources : (u v : String) → HasEdge looped.edges u v → Dict.has u looped.nodes ≡ true
unfolding program
looped_sources u v (inl (p, q)) = rw (← p) refl
looped_sources u v (inr (inl (p, q))) = rw (← p) refl
looped_sources u v (inr (inr (inl (p, q)))) = rw (← p) refl
looped_sources u v (inr (inr (inr h))) = elim h [ ]

find_cycle_lem_example :
    (c : List String) × (find_cycle looped ≡ some c)
    × ((c ≡ []) ↔ ((t : String) → Reaches looped.edges t t → ⊥))
find_cycle_lem_example = find_cycle_lem looped looped_sources

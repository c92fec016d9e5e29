-- ===== src/Models/Dag/Execution.antt =====
-- What `get_execution_order` of src/models/dag.py promises: tasks run after those they depend on.
use cyber_security_platform.Prelude.{
  ℕ, ◌+◌, ◌<◌, String, true, none, some, List, [], ◌∷◌, ◌≡◌, refl, sym, ◌∙◌, arith, contains,
  String-IsKey, Option-cases, inl, inr,
}
use cyber_security_platform.Prelude.Dict
use cyber_security_platform.Prelude.Dict.{Dict, has-contains}
use cyber_security_platform.Models.Dag.{
  Edge, Dag, Result, ok, raised, deep, no_tasks, all_levels, groups, max_level, get_execution_order,
}
use cyber_security_platform.Models.Dag.Edges.{HasEdge, Reaches}
use cyber_security_platform.Models.Dag.Levels.{height, height_mono, height-HasEdge}
use cyber_security_platform.Models.Dag.Table.{IsRight}
use cyber_security_platform.Models.Dag.Order.{
  Runs, group-contains, get-le_max, get_elem?-groups, all_levels-IsRight, height-cycle,
  all_levels-total,
}

-- The result by the table of levels.
order_of : Dict String ℕ → Result (List (List String))
order_of [] = raised no_tasks
order_of (e ∷ levels) = ok (groups (e ∷ levels) (max_level (e ∷ levels) + 1) 0)

order_deep :
    (fuel : ℕ) (g : Dag)
    → all_levels g.edges fuel (Dict.keys g.nodes) [] ≡ none
    → get_execution_order fuel g ≡ raised deep
unfolding get_execution_order
order_deep fuel g h = ground arith

order_found :
    (fuel : ℕ) (g : Dag) (levels : Dict String ℕ)
    → all_levels g.edges fuel (Dict.keys g.nodes) [] ≡ some levels
    → get_execution_order fuel g ≡ order_of levels
unfolding get_execution_order order_of
order_found fuel g [] h = ground arith
order_found fuel g (e ∷ levels) h = ground arith

empty-IsRight : (edges : List Edge) → IsRight edges []
unfolding Dict.get
empty-IsRight edges t l h = cc

order_of-Runs :
    (t : String) (l : ℕ) (levels : Dict String ℕ) (order : List (List String))
    → Dict.get t levels ≡ some l
    → order_of levels ≡ ok order
    → Runs t l order
unfolding order_of
order_of-Runs t l [] order found h = cc
order_of-Runs t l (e ∷ levels) order found h =
    let top = get-le_max t l (e ∷ levels) found in
    let at_l =
      get_elem?-groups (e ∷ levels) (max_level (e ∷ levels) + 1) 0 l l (omega arith)
        (omega arith) in
    let same : groups (e ∷ levels) (max_level (e ∷ levels) + 1) 0 ≡ order = ground arith in
    (_, rw (← same) at_l, group-contains t l (e ∷ levels) found)

order_of-total :
    (t : String) (l : ℕ) (levels : Dict String ℕ)
    → Dict.get t levels ≡ some l
    → (order : List (List String)) × (order_of levels ≡ ok order)
unfolding order_of Dict.get
order_of-total t l [] found = cc
order_of-total t l (e ∷ levels) found = (_, refl)

height_unique :
    (edges : List Edge) (f g : ℕ) (t : String) {l k : ℕ}
    → height edges f t ≡ some l
    → height edges g t ≡ some k
    → l ≡ k
height_unique edges f g t {l} {k} p q =
    let up = height_mono edges f (f + g) t {l = l} (omega arith) p in
    let up' = height_mono edges g (f + g) t {l = k} (omega arith) q in ground (arith, up, up')

-- In an execution order that is returned, two tasks of the graph that an edge joins each stand in
-- a group, the first in an earlier one than the second.
pub get_execution_order-HasEdge :
    (fuel : ℕ) (g : Dag) (order : List (List String)) (u v : String)
    → get_execution_order fuel g ≡ ok order
    → Dict.has u g.nodes ≡ true
    → Dict.has v g.nodes ≡ true
    → HasEdge g.edges u v
    → (i : ℕ) × (j : ℕ) × (i < j) × Runs u i order × Runs v j order
get_execution_order-HasEdge fuel g order u v e at_u at_v edge =
    elim (Option-cases (all_levels g.edges fuel (Dict.keys g.nodes) [])) [
      | inl missing ↦
          let step = sym (order_deep fuel g missing) ∙ e in absurd (ground (arith, step))
      | inr (levels, found) ↦
          let step = sym (order_found fuel g levels found) ∙ e in
          let (right, up, all) =
            all_levels-IsRight g.edges fuel (Dict.keys g.nodes) [] levels (empty-IsRight g.edges)
              found in
          let (i, u_level) = all u (has-contains u g.nodes at_u) in
          let (j, v_level) = all v (has-contains v g.nodes at_v) in
          let (f, u_height) = right u i u_level in
          let (f', v_height) = right v j v_level in
          let (k, low, less) = height-HasEdge g.edges f' u v {l = j} edge v_height in
          let same : i ≡ k = height_unique g.edges f f' u u_height low in
          (
            i,
            j,
            omega arith,
            order_of-Runs u i levels order u_level step,
            order_of-Runs v j levels order v_level step,
          )
    ]

-- If a task of the graph is on a cycle of edges, `get_execution_order` ends in a RecursionError,
-- however deep the recursion may go.
pub get_execution_order-cycle :
    (fuel : ℕ) (g : Dag) (t : String)
    → Dict.has t g.nodes ≡ true
    → Reaches g.edges t t
    → get_execution_order fuel g ≡ raised deep
get_execution_order-cycle fuel g t here cycle =
    elim (Option-cases (all_levels g.edges fuel (Dict.keys g.nodes) [])) [
      | inl missing ↦ order_deep fuel g missing
      | inr (levels, found) ↦
          let (right, up, all) =
            all_levels-IsRight g.edges fuel (Dict.keys g.nodes) [] levels (empty-IsRight g.edges)
              found in
          let (l, level) = all t (has-contains t g.nodes here) in
          let (f, h) = right t l level in absurd (height-cycle g.edges f {l = l} cycle h)
    ]

-- Where each edge raises a rank and the ranks of the tasks are below the depth that the recursion
-- may have, a graph with a task has an execution order.
pub get_execution_order-total :
    (fuel : ℕ) (g : Dag) (rank : String → ℕ) (t : String)
    → Dict.has t g.nodes ≡ true
    → ((u v : String) → HasEdge g.edges u v → rank u < rank v)
    → ((u : String) → contains u (Dict.keys g.nodes) ≡ true → rank u < fuel)
    → (order : List (List String)) × (get_execution_order fuel g ≡ ok order)
get_execution_order-total fuel g rank t here rises low =
    let (levels, found) = all_levels-total g.edges rank rises fuel (Dict.keys g.nodes) [] low in
    let (right, up, all) =
      all_levels-IsRight g.edges fuel (Dict.keys g.nodes) [] levels (empty-IsRight g.edges) found in
    let (l, level) = all t (has-contains t g.nodes here) in
    let (order, e) = order_of-total t l levels level in (order, order_found fuel g levels found ∙ e)

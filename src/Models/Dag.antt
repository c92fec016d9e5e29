-- ===== src/Models/Dag.antt =====
-- src/models/dag.py: the tasks of a plan, its edges, and the levels in which tasks run. The texts and
-- settings of a task that no method reads are left out, and so is the critical path.
pub mod Edges
pub mod Search
pub mod Levels
pub mod Table
pub mod Order
pub mod Execution
pub mod Building
pub mod Invariant
mod Samples
use cyber_security_platform.Prelude.{
  ℕ, zero, suc, ◌+◌, max, String, Bool, true, false, Option, none, some, List, [], ◌∷◌, ◌++◌, map,
  nat_beq, if◌then◌else◌, length, filter_by, contains, ◌==◌, String-IsKey,
}
use cyber_security_platform.Prelude.Dict
use cyber_security_platform.Prelude.Dict.{Dict}

pub record TaskNode : Type 0 where
  pub task_id : String
  pub dependencies : List String
  pub estimated_cost : ℕ

-- The validator of `dependencies`; `none` where it raises ValueError.
pub prevent_self_dependency : TaskNode → Option TaskNode
prevent_self_dependency node = if contains node.task_id node.dependencies then none else some node

-- {"from": …, "to": …}
abbrev pub Edge : Type 0
Edge = String × String

pub record Dag : Type 0 where
  pub nodes : Dict String TaskNode
  pub edges : List Edge
  pub total_tasks : ℕ
  pub estimated_total_cost : ℕ

abbrev pub init : Dag
init = record { nodes = []; edges = []; total_tasks = 0; estimated_total_cost = 0 }

-- The three ValueErrors of the methods; `deep` stands for a RecursionError.
pub data Error : Type 0 where
  already_exists must_exist would_cycle no_tasks deep : Error

pub data Result (A : Type 0) : Type 0 where
  ok : A → Result A
  raised : Error → Result A

abbrev pub total : List TaskNode → ℕ
total [] = 0
total (n ∷ ns) = n.estimated_cost + total ns

pub update_estimates : Dag → Dag
update_estimates g = record g { estimated_total_cost = total (Dict.values g.nodes) }

pub add_node : TaskNode → Dag → Result Dag
unfolding update_estimates
add_node node g =
    if Dict.has node.task_id g.nodes
    then raised already_exists
    else (let nodes = Dict.put node.task_id node g.nodes in
        ok (update_estimates (record g { nodes = nodes; total_tasks = length nodes })))

module _ (edges : List Edge) (to_task : String) where
  -- The `for` loop of `dfs` at a node; `visit` is the recursive call.
  pub scan :
      (visit : String → List String → Option (Bool × List String))
      → String
      → List Edge
      → List String
      → Option (Bool × List String)
  scan visit node [] visited = some (false, visited)
  scan visit node (e ∷ es) visited = elim (e.0 == node) [
    | false ↦ scan visit node es visited
    | true ↦ elim (visit e.1 visited) [
      | none ↦ none
      | some (true, seen) ↦ some (true, seen)
      | some (false, seen) ↦ scan visit node es seen
    ]
  ]

  -- `dfs`, on fuel, and the nodes visited so far.
  pub dfs : ℕ → String → List String → Option (Bool × List String)
  unfolding scan
  dfs zero node visited = none
  dfs (suc fuel) node visited =
      if contains node visited
      then some (node == to_task, visited)
      else scan (dfs fuel) node edges (node ∷ visited)

-- The depth of `dfs` is at most one more than the number of different nodes.
pub would_create_cycle : String → String → Dag → Option Bool
would_create_cycle from_task to_task g =
    elim (dfs g.edges to_task (length g.edges + 2) from_task []) [
      | none ↦ none
      | some (found, visited) ↦ some found
    ]

-- `self.nodes[to_task].dependencies.append(from_task)`
pub depend : String → String → Dict String TaskNode → Dict String TaskNode
depend from_task to_task nodes = elim (Dict.get to_task nodes) [
  | none ↦ nodes
  | some n ↦ Dict.put to_task (record n { dependencies = n.dependencies ++ from_task ∷ [] }) nodes
]

pub with_edge : String → String → Dag → Dag
unfolding update_estimates depend
with_edge from_task to_task g = update_estimates (record g {
  edges = g.edges ++ (from_task, to_task) ∷ [];
  nodes = depend from_task to_task g.nodes;
})

pub add_edge : String → String → Dag → Result Dag
add_edge from_task to_task g =
    if Dict.has from_task g.nodes
    then (if Dict.has to_task g.nodes
        then elim (would_create_cycle from_task to_task g) [
          | none ↦ raised deep
          | some true ↦ raised would_cycle
          | some false ↦ ok (with_edge from_task to_task g)
        ]
        else raised must_exist)
    else raised must_exist

-- `[edge["from"] for edge in self.edges if edge["to"] == task_id]`
pub incoming : String → List Edge → List String
incoming task_id [] = []
incoming task_id (e ∷ es) =
    if e.1 == task_id then e.0 ∷ incoming task_id es else incoming task_id es

-- `max(get_level(dep) for dep in …)` with the table that the calls share; `best` so far.
pub highest :
    (level_of : String → Dict String ℕ → Option (ℕ × Dict String ℕ))
    → List String
    → ℕ
    → Dict String ℕ
    → Option (ℕ × Dict String ℕ)
highest level_of [] best levels = some (best, levels)
highest level_of (dep ∷ deps) best levels = elim (level_of dep levels) [
  | none ↦ none
  | some (level, levels') ↦ highest level_of deps (max best level) levels'
]

module _ (edges : List Edge) where
  -- `get_level`, on fuel: `none` is a recursion that is too deep.
  pub get_level : ℕ → String → Dict String ℕ → Option (ℕ × Dict String ℕ)
  unfolding highest incoming
  get_level zero task_id levels = none
  get_level (suc fuel) task_id levels = elim (Dict.get task_id levels) [
    | some level ↦ some (level, levels)
    | none ↦ elim (incoming task_id edges) [
      | [] ↦ some (0, Dict.put task_id 0 levels)
      | dep ∷ deps ↦ elim (highest (get_level fuel) (dep ∷ deps) 0 levels) [
        | none ↦ none
        | some (best, levels') ↦ some (best + 1, Dict.put task_id (best + 1) levels')
      ]
    ]
  ]

  -- `for task_id in self.nodes: get_level(task_id)`
  pub all_levels : ℕ → List String → Dict String ℕ → Option (Dict String ℕ)
  all_levels fuel [] levels = some levels
  all_levels fuel (t ∷ ts) levels = elim (get_level fuel t levels) [
    | none ↦ none
    | some (level, levels') ↦ all_levels fuel ts levels'
  ]

-- `[task_id for task_id, level in levels.items() if level == i]`
abbrev pub group : Dict String ℕ → ℕ → List String
group levels i = Dict.keys (filter_by (λ e. nat_beq e.1 i) levels)

-- The groups from `i` on, `left` of them.
pub groups : Dict String ℕ → (left i : ℕ) → List (List String)
groups levels zero i = []
groups levels (suc left) i = group levels i ∷ groups levels left (suc i)

abbrev pub max_level : Dict String ℕ → ℕ
max_level [] = 0
max_level (e ∷ levels) = max e.1 (max_level levels)

pub get_execution_order : ℕ → Dag → Result (List (List String))
unfolding all_levels groups
get_execution_order fuel g = elim (all_levels g.edges fuel (Dict.keys g.nodes) []) [
  | none ↦ raised deep
  | some [] ↦ raised no_tasks
  | some (e ∷ levels) ↦ ok (groups (e ∷ levels) (max_level (e ∷ levels) + 1) 0)
]

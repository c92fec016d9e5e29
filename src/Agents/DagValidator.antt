-- ===== src/Agents/DagValidator.antt =====
-- src/agents/verifier/dag_validator.py: the search of `_find_cycle` in the graph of src/models/dag.py.
-- The nodes on the recursion stack are those of `path`; where a call ends with no cycle, `remove` and
-- `pop` undo its `add` and `append`, so that a call has the lists of its caller again.
pub mod Search
pub mod Clear
pub mod Ends
mod Samples
use cyber_security_platform.Prelude.{
  ℕ, zero, suc, ◌+◌, String, Bool, true, false, Option, none, some, List, [], ◌∷◌, ◌++◌,
  if◌then◌else◌, length, contains, ◌==◌, String-IsKey,
}
use cyber_security_platform.Prelude.Dict
use cyber_security_platform.Models.Dag.{Edge, Dag}

-- `[edge["to"] for edge in dag.edges if edge["from"] == node_id]`
pub outgoing : String → List Edge → List String
outgoing node [] = []
outgoing node (e ∷ es) = if e.0 == node then e.1 ∷ outgoing node es else outgoing node es

-- `path[path.index(neighbor):]`
pub from_first : String → List String → List String
from_first node [] = []
from_first node (x ∷ xs) = if x == node then x ∷ xs else from_first node xs

-- The loop over the neighbours of the last node of `path`; `visit` is the recursive call. A result
-- is the cycle, if there is one, and the nodes visited.
pub follow :
    (visit : String → List String → List String → Option (Option (List String) × List String))
    → (path neighbours visited : List String) → Option (Option (List String) × List String)
follow visit path [] visited = some (none, visited)
follow visit path (n ∷ ns) visited = elim (contains n visited) [
  | true ↦ elim (contains n path) [
    | true ↦ some (some (from_first n path ++ n ∷ []), visited)
    | false ↦ follow visit path ns visited
  ]
  | false ↦ elim (visit n path visited) [
    | none ↦ none
    | some (some cycle, seen) ↦ some (some cycle, seen)
    | some (none, seen) ↦ follow visit path ns seen
  ]
]

module _ (edges : List Edge) where
  -- `dfs`, on fuel.
  pub dfs : ℕ → String → (path visited : List String) → Option (Option (List String) × List String)
  unfolding follow outgoing
  dfs zero node path visited = none
  dfs (suc fuel) node path visited =
      follow (dfs fuel) (path ++ node ∷ []) (outgoing node edges) (node ∷ visited)

  -- `for node_id in dag.nodes`
  pub over_nodes : ℕ → List String → List String → Option (List String)
  over_nodes fuel [] visited = some []
  over_nodes fuel (node ∷ nodes) visited = elim (contains node visited) [
    | true ↦ over_nodes fuel nodes visited
    | false ↦ elim (dfs fuel node [] visited) [
      | none ↦ none
      | some (some cycle, seen) ↦ some cycle
      | some (none, seen) ↦ over_nodes fuel nodes seen
    ]
  ]

-- No call is deeper than the number of different nodes.
pub find_cycle : Dag → Option (List String)
unfolding over_nodes
find_cycle g = over_nodes g.edges (length g.nodes + length g.edges + 1) (Dict.keys g.nodes) []

-- ===== src/Agents/DagValidator/Ends.antt =====
-- The search of `_find_cycle` in src/agents/verifier/dag_validator.py ends, and is right.
use cyber_security_platform.Prelude.{
  ℕ, zero, suc, ◌+◌, ◌<◌, String, true, false, not, Option, none, some, List, [], ◌∷◌, ◌++◌, map,
  ◌≡◌, ◌⊎◌, ◌↔◌, inl, inr, refl, ap, ◌∙◌, arith, length, contains, String-IsKey, Bool-cases,
  Option-cases, same_refl, List-cases, length-append, length-filter_by-le,
}
use cyber_security_platform.Prelude.Dict
use cyber_security_platform.Prelude.Dict.{has-contains}
use cyber_security_platform.Prelude.Sets.{contains-append}
use cyber_security_platform.Models.Dag.{Edge, Dag}
use cyber_security_platform.Models.Dag.Edges.{HasEdge, Reaches, once, further}
use cyber_security_platform.Models.Dag.Search.{
  Within, unseen, unseen-le, unseen-lt, contains-later, length-targets, targets-contains,
}
use cyber_security_platform.Agents.DagValidator.{
  outgoing, from_first, follow, dfs, over_nodes, find_cycle,
}
use cyber_security_platform.Agents.DagValidator.Clear.{over_nodes-Done}
use cyber_security_platform.Agents.DagValidator.Search.{
  outgoing-HasEdge, Done-acyclic, over_nodes-found,
}

module _ (edges : List Edge) (names : List String)
    (known : (u v : String) → HasEdge edges u v → contains v names ≡ true) where
  -- A call at a node that is not visited returns.
  abbrev Returns : Option (Option (List String) × List String) → List String → Type 0
  Returns result visited =
      (p : Option (List String) × List String) × (result ≡ some p) × Within visited p.1

  follow-total :
      (f : ℕ)
      (visit : String → List String → List String → Option (Option (List String) × List String))
      → ((k : String) (path visited : List String)
          → contains k names ≡ true
          → contains k visited ≡ false
          → unseen names visited < f
          → Returns (visit k path visited) visited)
      → (path ns visited : List String)
      → ((n : String) → contains n ns ≡ true → contains n names ≡ true)
      → unseen names visited < f
      → Returns (follow visit path ns visited) visited
  unfolding follow
  follow-total f visit total path [] visited part room = ((none, visited), refl, λ x at_x. at_x)
  follow-total f visit total path (n ∷ ns) visited part room =
      let here = part n (unfold contains in ground (arith, same_refl n)) in
      let later = λ (m : String) (at : contains m ns ≡ true).
        part m (unfold contains in ground (arith, at)) in
      elim (Bool-cases (contains n visited)) [
        | inl old ↦
            let (q, rest, grows) = follow-total f visit total path ns visited later room in
            elim (Bool-cases (contains n path)) [
              | inl on_path ↦
                  ((some (from_first n path ++ n ∷ []), visited), ground arith, λ x at_x. at_x)
              | inr off ↦ (q, ground arith, grows)
            ]
        | inr new ↦
            let (p, found, grows) = total n path visited here new room in
            let (q, rest, grows') =
              follow-total f visit total path ns p.1 later
                (omega (arith, unseen-le names visited p.1 grows)) in
            elim (Option-cases p.0) [
              | inr (c, it) ↦ ((some c, p.1), ground arith, grows)
              | inl nothing ↦ (q, ground arith, λ x at_x. grows' x (grows x at_x))
            ]
      ]

  dfs-total :
      (f : ℕ) (n : String) (path visited : List String)
      → contains n names ≡ true
      → contains n visited ≡ false
      → unseen names visited < f
      → Returns (dfs edges f n path visited) visited
  unfolding dfs
  dfs-total zero n path visited member new room = elim room [ ]
  dfs-total (suc f) n path visited member new room =
      let less = unseen-lt n names visited member new in
      let (p, found, grows) =
        follow-total f (dfs edges f) (dfs-total f) (path ++ n ∷ []) (outgoing n edges) (n ∷ visited)
          (λ m at_m. known n m (outgoing-HasEdge n m edges at_m)) (omega arith) in
      (p, found, λ x at_x. grows x (contains-later x n visited at_x))

  over_nodes-total :
      (f : ℕ) (nodes visited : List String)
      → ((n : String) → contains n nodes ≡ true → contains n names ≡ true)
      → unseen names visited < f
      → (c : List String) × (over_nodes edges f nodes visited ≡ some c)
  unfolding over_nodes
  over_nodes-total f [] visited part room = ([], refl)
  over_nodes-total f (n ∷ ns) visited part room =
      let here = part n (unfold contains in ground (arith, same_refl n)) in
      let later = λ (m : String) (at : contains m ns ≡ true).
        part m (unfold contains in ground (arith, at)) in
      elim (Bool-cases (contains n visited)) [
        | inl old ↦ let (c, rest) = over_nodes-total f ns visited later room in (c, ground arith)
        | inr new ↦
            let (p, found, grows) = dfs-total f n [] visited here new room in
            let (c, rest) =
              over_nodes-total f ns p.1 later (omega (arith, unseen-le names visited p.1 grows)) in
            elim (Option-cases p.0) [
              | inr (cycle, it) ↦ (cycle, ground arith)
              | inl nothing ↦ (c, ground arith)
            ]
      ]

length-keys : {V : Type 0} (d : Dict.Dict String V) → length (Dict.keys d) ≡ length d
length-keys [] = refl
length-keys (e ∷ d) = ap suc (length-keys d)

source : {edges : List Edge} {u v : String} → Reaches edges u v → (w : String) × HasEdge edges u w
source (once e) = (_, e)
source (further e r) = (_, e)

names_of : Dag → List String
names_of g = Dict.keys g.nodes ++ map (λ (e : Edge). e.1) g.edges

length-names_of : (g : Dag) → length (names_of g) ≡ length g.nodes + length g.edges
unfolding names_of
length-names_of g = omega (
  arith,
  length-append (Dict.keys g.nodes) (map (λ (e : Edge). e.1) g.edges),
  length-keys g.nodes,
  length-targets g.edges,
)

contains-names_of :
    (g : Dag) (n : String)
    → (contains n (Dict.keys g.nodes) ≡ true)
      ⊎ (contains n (map (λ (e : Edge). e.1) g.edges) ≡ true)
    → contains n (names_of g) ≡ true
unfolding names_of
contains-names_of g n (inl h) =
    ground (arith, contains-append n (Dict.keys g.nodes) (map (λ (e : Edge). e.1) g.edges), h)
contains-names_of g n (inr h) =
    ground (arith, contains-append n (Dict.keys g.nodes) (map (λ (e : Edge). e.1) g.edges), h)

find_cycle-total : (g : Dag) → (c : List String) × (find_cycle g ≡ some c)
unfolding find_cycle
find_cycle-total g =
    over_nodes-total g.edges (names_of g)
      (λ u v e. contains-names_of g v (inr (targets-contains g.edges u v e)))
      (length g.nodes + length g.edges + 1) (Dict.keys g.nodes) []
      (λ n h. contains-names_of g n (inl h))
      (omega
        (arith, length-names_of g, length-filter_by-le (λ n. not (contains n [])) (names_of g)))

-- The search ends in every graph whose edges start at tasks of the graph, and the cycle that it
-- returns is empty exactly if no chain of edges leads from a task back to itself.
pub find_cycle_lem :
    (g : Dag)
    → ((u v : String) → HasEdge g.edges u v → Dict.has u g.nodes ≡ true)
    → (c : List String) × (find_cycle g ≡ some c)
      × ((c ≡ []) ↔ ((t : String) → Reaches g.edges t t → ⊥))
unfolding find_cycle
find_cycle_lem g sources =
    let (c, found) = find_cycle-total g in
    let fuel = length g.nodes + length g.edges + 1 in
    (
      c,
      found,
      (
        λ empty t cycle.
            let (w, e) = source cycle in
            let known = has-contains t g.nodes (sources t w e) in
            Done-acyclic g.edges
              (over_nodes-Done g.edges fuel (Dict.keys g.nodes) []
                (λ x at_x. absurd (unfold contains in ground arith)) (found ∙ ap some empty) t
                known)
              cycle,
        λ acyclic. elim (List-cases c) [
          | inl empty ↦ empty
          | inr (x, xs, some_cycle) ↦
              let (t, cycle) =
                over_nodes-found g.edges fuel (Dict.keys g.nodes) [] c found
                  (λ e. cc (some_cycle, e)) in
              absurd (acyclic t cycle)
        ],
      ),
    )

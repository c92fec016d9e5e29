-- ===== src/Agents/DagValidator/Clear.antt =====
-- A search of `_find_cycle` in src/agents/verifier/dag_validator.py that finds nothing.
use cyber_security_platform.Prelude.{
  ℕ, zero, suc, String, true, Option, none, some, List, [], ◌∷◌, ◌++◌, ◌≡◌, ◌≢◌, ◌⊎◌, inl, inr, sym,
  subst, arith, contains, ◌==◌, String-IsKey, Bool-cases, Option-cases,
}
use cyber_security_platform.Prelude.Sets.{contains-append}
use cyber_security_platform.Models.Dag.{Edge}
use cyber_security_platform.Agents.DagValidator.{outgoing, from_first, follow, dfs, over_nodes}
use cyber_security_platform.Agents.DagValidator.Search.{contains-outgoing, contains-end, Done, done}

append-ne : (xs : List String) (x : String) → xs ++ x ∷ [] ≢ []
append-ne [] x h = cc (h)
append-ne (y ∷ xs) x h = cc (h)

module _ (edges : List Edge) where
  -- A visited node is on the path, or every chain from it ends.
  abbrev pub Settled : (path visited : List String) → Type 0
  Settled path visited =
      (x : String) → contains x visited ≡ true → (contains x path ≡ true) ⊎ Done edges x

  abbrev Grows : (visited seen : List String) → Type 0
  Grows visited seen = (x : String) → contains x visited ≡ true → contains x seen ≡ true

  -- What a call that finds no cycle leaves.
  abbrev Clear : (path visited seen : List String) → Type 0
  Clear path visited seen = Settled path seen × Grows visited seen

  Done-cons :
      (n : String) (ns : List String)
      → Done edges n
      → ((m : String) → contains m ns ≡ true → Done edges m)
      → (m : String) → contains m (n ∷ ns) ≡ true
      → Done edges m
  Done-cons n ns this rest m at_m = elim (Bool-cases (m == n)) [
    | inl same ↦ subst (Done edges) (sym ((String-IsKey.same_iff m n).0 same)) this
    | inr differs ↦ rest m (unfold contains in ground (arith, at_m))
  ]

  follow-Clear :
      (visit : String → List String → List String → Option (Option (List String) × List String))
      → ((n : String) (path visited seen : List String)
          → Settled path visited
          → visit n path visited ≡ some (none, seen)
          → Clear path visited seen × Done edges n)
      → (path ns visited seen : List String) → Settled path visited
      → follow visit path ns visited ≡ some (none, seen)
      → Clear path visited seen × ((n : String) → contains n ns ≡ true → Done edges n)
  unfolding follow
  follow-Clear visit clears path [] visited seen settled h =
      let same : visited ≡ seen = ground arith in
      (
        (rw (← same) settled, rw (← same) (λ x at_x. at_x)),
        λ n at_n. absurd (unfold contains in ground arith),
      )
  follow-Clear visit clears path (n ∷ ns) visited seen settled h =
      elim (Bool-cases (contains n visited)) [
        | inl old ↦ elim (Bool-cases (contains n path)) [
          | inl on_path ↦ absurd (ground arith)
          | inr off ↦
              let (clear, rest) =
                follow-Clear visit clears path ns visited seen settled (ground arith) in
              let this : Done edges n = elim (settled n old) [
                | inl on_path ↦ absurd (cc (off, on_path))
                | inr d ↦ d
              ] in
              (clear, Done-cons n ns this rest)
        ]
        | inr new ↦ elim (Option-cases (visit n path visited)) [
          | inl missing ↦ absurd (ground arith)
          | inr (p, found) ↦ elim (Option-cases p.0) [
            | inr (c, it) ↦ absurd (ground arith)
            | inl nothing ↦
                let (clear1, this) = clears n path visited p.1 settled (ground arith) in
                let (clear2, rest) =
                  follow-Clear visit clears path ns p.1 seen clear1.0 (ground arith) in
                ((clear2.0, λ x at_x. clear2.1 x (clear1.1 x at_x)), Done-cons n ns this rest)
          ]
        ]
      ]

  dfs-Clear :
      (f : ℕ) (n : String) (path visited seen : List String)
      → Settled path visited
      → dfs edges f n path visited ≡ some (none, seen)
      → Clear path visited seen × Done edges n
  unfolding dfs
  dfs-Clear zero n path visited seen settled h = absurd (ground arith)
  dfs-Clear (suc f) n path visited seen settled h =
      let start : Settled (path ++ n ∷ []) (n ∷ visited) = λ x at_x. elim (Bool-cases (x == n)) [
        | inl same ↦ inl (unfold contains in ground (arith, contains-append x path (n ∷ []), same))
        | inr other ↦ elim (settled x (unfold contains in ground (arith, at_x))) [
          | inl on_path ↦ inl (ground (arith, contains-append x path (n ∷ []), on_path))
          | inr d ↦ inr d
        ]
      ] in
      let (clear, all_done) =
        follow-Clear (dfs edges f) (dfs-Clear f) (path ++ n ∷ []) (outgoing n edges) (n ∷ visited)
          seen start h in
      let this : Done edges n = done (λ v e. all_done v (contains-outgoing n v edges e)) in
      (
        (
          λ x at_x. elim (clear.0 x at_x) [
            | inl on_path ↦ elim (contains-end edges x n path on_path) [
              | inl before_n ↦ inl before_n
              | inr same ↦ inr (subst (Done edges) (sym same) this)
            ]
            | inr d ↦ inr d
          ],
          λ x at_x. clear.1 x (unfold contains in ground (arith, at_x)),
        ),
        this,
      )

  -- A cycle that is found is not the empty list, which stands for none.
  follow-ne :
      (visit : String → List String → List String → Option (Option (List String) × List String))
      → ((n : String) (path visited cycle seen : List String)
          → visit n path visited ≡ some (some cycle, seen)
          → cycle ≢ [])
      → (path ns visited cycle seen : List String)
      → follow visit path ns visited ≡ some (some cycle, seen)
      → cycle ≢ []
  unfolding follow
  follow-ne visit nes path [] visited cycle seen h = absurd (ground arith)
  follow-ne visit nes path (n ∷ ns) visited cycle seen h = elim (Bool-cases (contains n visited)) [
    | inl old ↦ elim (Bool-cases (contains n path)) [
      | inl on_path ↦
          let same : from_first n path ++ n ∷ [] ≡ cycle = ground arith in
          rw (← same) (append-ne (from_first n path) n)
      | inr off ↦ follow-ne visit nes path ns visited cycle seen (ground arith)
    ]
    | inr new ↦ elim (Option-cases (visit n path visited)) [
      | inl missing ↦ absurd (ground arith)
      | inr (p, found) ↦ elim (Option-cases p.0) [
        | inr (c, it) ↦ nes n path visited cycle seen (ground arith)
        | inl nothing ↦ follow-ne visit nes path ns p.1 cycle seen (ground arith)
      ]
    ]
  ]

  dfs-ne :
      (f : ℕ) (n : String) (path visited cycle seen : List String)
      → dfs edges f n path visited ≡ some (some cycle, seen)
      → cycle ≢ []
  unfolding dfs
  dfs-ne zero n path visited cycle seen h = absurd (ground arith)
  dfs-ne (suc f) n path visited cycle seen h =
      follow-ne (dfs edges f) (dfs-ne f) (path ++ n ∷ []) (outgoing n edges) (n ∷ visited) cycle
        seen h

  pub over_nodes-Done :
      (f : ℕ) (nodes visited : List String)
      → Settled [] visited
      → over_nodes edges f nodes visited ≡ some []
      → (n : String) → contains n nodes ≡ true
      → Done edges n
  unfolding over_nodes
  over_nodes-Done f [] visited settled h = λ n at_n. absurd (unfold contains in ground arith)
  over_nodes-Done f (n ∷ ns) visited settled h = elim (Bool-cases (contains n visited)) [
    | inl old ↦
        let this : Done edges n = elim (settled n old) [
          | inl none_there ↦ absurd (unfold contains in ground arith)
          | inr d ↦ d
        ] in
        Done-cons n ns this (over_nodes-Done f ns visited settled (ground arith))
    | inr new ↦ elim (Option-cases (dfs edges f n [] visited)) [
      | inl missing ↦ absurd (ground arith)
      | inr (p, found) ↦ elim (Option-cases p.0) [
        | inr (c, it) ↦ absurd (dfs-ne f n [] visited c p.1 (ground arith) (ground arith))
        | inl nothing ↦
            let (clear, this) = dfs-Clear f n [] visited p.1 settled (ground arith) in
            Done-cons n ns this (over_nodes-Done f ns p.1 clear.0 (ground arith))
      ]
    ]
  ]

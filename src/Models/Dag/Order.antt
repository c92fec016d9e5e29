-- ===== src/Models/Dag/Order.antt =====
-- The levels in which `get_execution_order` of src/models/dag.py runs the tasks.
use cyber_security_platform.Prelude.{
  ℕ, zero, suc, ◌+◌, ◌≤◌, ◌<◌, max, String, true, some, List, [], ◌∷◌, ◌≡◌, refl, ap, ◌∙◌, arith,
  contains, ◌==◌, String-IsKey, Option-cases, inl, inr, Bool-cases, get_elem?, same_refl,
  List-cases,
}
use cyber_security_platform.Prelude.Dict
use cyber_security_platform.Prelude.Dict.{Dict, has-contains}
use cyber_security_platform.Models.Dag.{
  Edge, get_level, highest, incoming, all_levels, group, groups, max_level,
}
use cyber_security_platform.Models.Dag.Edges.{HasEdge, Reaches, once, further, incoming-HasEdge}
use cyber_security_platform.Models.Dag.Levels.{height, height-HasEdge}
use cyber_security_platform.Models.Dag.Table.{
  IsRight, Extends, get_level-IsRight, get_level_known, get_level_source, get_level_inner,
}

-- The task stands in the `i`-th group.
abbrev pub Runs : String → ℕ → List (List String) → Type 0
Runs t i order =
    (tasks : List String) × (get_elem? order i ≡ some tasks) × (contains t tasks ≡ true)

pub group-contains :
    (t : String) (l : ℕ) (levels : Dict String ℕ)
    → Dict.get t levels ≡ some l
    → contains t (group levels l) ≡ true
unfolding Dict.get contains
group-contains t l [] h = cc
group-contains t l (e ∷ levels) h =
    ground
      (arith, group-contains t l levels, String-IsKey.same_iff e.0 t, String-IsKey.same_iff t e.0)

pub get-le_max :
    (t : String) (l : ℕ) (levels : Dict String ℕ)
    → Dict.get t levels ≡ some l
    → l ≤ max_level levels
unfolding Dict.get
get-le_max t l [] h = cc
get-le_max t l (e ∷ levels) h = ground (arith, get-le_max t l levels)

pub get_elem?-groups :
    (levels : Dict String ℕ) (left i j l : ℕ)
    → j < left
    → i + j ≡ l
    → get_elem? (groups levels left i) j ≡ some (group levels l)
unfolding groups
get_elem?-groups levels zero i j l h at_l = elim h [ ]
get_elem?-groups levels (suc left) i zero l h at_l =
    let e : i ≡ l = omega arith in ap (λ n. some (group levels n)) e
get_elem?-groups levels (suc left) i (suc j) l h at_l =
    get_elem?-groups levels left (suc i) j l (omega arith) (omega arith)

module _ (edges : List Edge) where
  pub all_levels-IsRight :
      (fuel : ℕ) (ts : List String) (levels levels' : Dict String ℕ)
      → IsRight edges levels
      → all_levels edges fuel ts levels ≡ some levels'
      → IsRight edges levels'
        × Extends levels levels'
        × ((t : String) → contains t ts ≡ true → (l : ℕ) × (Dict.get t levels' ≡ some l))
  unfolding all_levels contains
  all_levels-IsRight fuel [] levels levels' right e =
      let same : levels ≡ levels' = ground arith in
      (rw (← same) right, rw (← same) (λ t l at_t. at_t), λ t member. cc (member))
  all_levels-IsRight fuel (t ∷ ts) levels levels' right e =
      elim (Option-cases (get_level edges fuel t levels)) [
        | inl missing ↦ absurd (ground arith)
        | inr (p, found) ↦
            let (right1, up1, here, h) =
              get_level-IsRight edges fuel t p.0 levels p.1 right found in
            let (right2, up2, rest) =
              all_levels-IsRight fuel ts p.1 levels' right1 (ground arith) in
            (
              right2,
              λ u l at_u. up2 u l (up1 u l at_u),
              λ u member. elim (Bool-cases (u == t)) [
                | inl same ↦ (p.0, ground (arith, up2 t p.0 here, String-IsKey.same_iff u t))
                | inr differs ↦ rest u (ground arith)
              ],
            )
      ]

  height-Reaches :
      {u v : String} (f : ℕ) {l : ℕ}
      → Reaches edges u v
      → height edges f v ≡ some l
      → (k : ℕ) × (height edges f u ≡ some k) × (k < l)
  height-Reaches {u} {v} f (once e) h = height-HasEdge edges f u v e h
  height-Reaches {u} f (further {w = w} e r) h =
      let (k, at_w, less) = height-Reaches f r h in
      let (j, at_u, lower) = height-HasEdge edges f u w {l = k} e at_w in (j, at_u, omega arith)

  pub height-cycle :
      {t : String} (f : ℕ) {l : ℕ} → Reaches edges t t → height edges f t ≡ some l → ⊥
  height-cycle f r h = let (k, at_t, less) = height-Reaches f r h in ground arith

  -- Enough fuel for the tasks whose rank is below it.
  module _ (rank : String → ℕ) (rises : (u v : String) → HasEdge edges u v → rank u < rank v) where
    highest-total :
        (f : ℕ) (ds : List String) (best : ℕ) (levels : Dict String ℕ)
        → ((t : String) (ls : Dict String ℕ)
            → rank t < f
            → (p : ℕ × Dict String ℕ) × (get_level edges f t ls ≡ some p))
        → ((d : String) → contains d ds ≡ true → rank d < f)
        → (p : ℕ × Dict String ℕ) × (highest (get_level edges f) ds best levels ≡ some p)
    unfolding highest contains
    highest-total f [] best levels visit low = ((best, levels), refl)
    highest-total f (d ∷ ds) best levels visit low =
        let (p, found) = visit d levels (low d (ground (arith, same_refl d))) in
        let (q, rest) =
          highest-total f ds (max best p.0) p.1 visit (λ c member. low c (ground arith)) in
        (q, ground arith)

    get_level-total :
        (f : ℕ) (t : String) (levels : Dict String ℕ)
        → rank t < f
        → (p : ℕ × Dict String ℕ) × (get_level edges f t levels ≡ some p)
    get_level-total zero t levels h = elim h [ ]
    get_level-total (suc f) t levels h = elim (Option-cases (Dict.get t levels)) [
      | inr (k, known) ↦ ((k, levels), get_level_known edges f t levels k known)
      | inl absent ↦ elim (List-cases (incoming t edges)) [
        | inl source ↦ ((0, Dict.put t 0 levels), get_level_source edges f t levels absent source)
        | inr (d, ds, some_in) ↦
            let low : (c : String) → contains c (d ∷ ds) ≡ true → rank c < f = λ c member.
              let e = rises c t (incoming-HasEdge c t edges (rw some_in member)) in omega arith in
            let (q, found) = highest-total f (d ∷ ds) 0 levels (get_level-total f) low in
            (
              (q.0 + 1, Dict.put t (q.0 + 1) q.1),
              get_level_inner edges f t levels d ds absent some_in ∙ rw found refl,
            )
      ]
    ]

    pub all_levels-total :
        (f : ℕ) (ts : List String) (levels : Dict String ℕ)
        → ((t : String) → contains t ts ≡ true → rank t < f)
        → (levels' : Dict String ℕ) × (all_levels edges f ts levels ≡ some levels')
    unfolding all_levels contains
    all_levels-total f [] levels low = (levels, refl)
    all_levels-total f (t ∷ ts) levels low =
        let (p, found) = get_level-total f t levels (low t (ground (arith, same_refl t))) in
        let (levels', rest) = all_levels-total f ts p.1 (λ c member. low c (ground arith)) in
        (levels', ground arith)

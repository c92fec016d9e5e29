-- ===== src/Models/Dag/Table.antt =====
-- The table of `get_level` in src/models/dag.py holds the levels of its tasks.
use cyber_security_platform.Prelude.{
  ℕ, zero, suc, ◌+◌, max, String, Option, none, some, List, [], ◌∷◌, ◌≡◌, refl, sym, ◌∙◌, arith,
  ◌==◌, String-IsKey, Option-cases, inl, inr, Bool-cases, List-cases,
}
use cyber_security_platform.Prelude.Dict
use cyber_security_platform.Prelude.Dict.{Dict, get-put, get-put_self}
use cyber_security_platform.Models.Dag.{Edge, incoming, highest, get_level}
use cyber_security_platform.Models.Dag.Levels.{heights, heights_mono, height, height_mono}

-- Every entry of a table is the level of its task.
abbrev pub IsRight : List Edge → Dict String ℕ → Type 0
IsRight edges levels =
    (t : String) (l : ℕ) → Dict.get t levels ≡ some l → (f : ℕ) × (height edges f t ≡ some l)

-- What the first table has, the second has too.
abbrev pub Extends : Dict String ℕ → Dict String ℕ → Type 0
Extends levels levels' =
    (t : String) (l : ℕ) → Dict.get t levels ≡ some l → Dict.get t levels' ≡ some l

IsRight-put :
    (edges : List Edge) (f l : ℕ) (t : String) (levels : Dict String ℕ)
    → height edges f t ≡ some l
    → IsRight edges levels
    → IsRight edges (Dict.put t l levels)
IsRight-put edges f l t levels h right u k found = elim (Bool-cases (t == u)) [
  | inl same ↦ (f, ground (arith, get-put t u l levels, String-IsKey.same_iff t u))
  | inr differs ↦ right u k (ground (arith, get-put t u l levels))
]

Extends-put :
    (l : ℕ) (t : String) (levels levels' : Dict String ℕ)
    → Dict.get t levels ≡ none
    → Extends levels levels'
    → Extends levels (Dict.put t l levels')
Extends-put l t levels levels' absent up u k found =
    ground (arith, get-put t u l levels', up u k, String-IsKey.same_iff t u)

module _ (edges : List Edge) where
  -- What a call of `get_level` that returns `l` and a table has done.
  abbrev pub Answers : String → ℕ → Dict String ℕ → Dict String ℕ → Type 0
  Answers t l levels levels' =
      IsRight edges levels'
      × Extends levels levels'
      × (Dict.get t levels' ≡ some l)
      × ((f : ℕ) × (height edges f t ≡ some l))

  highest-IsRight :
      (visit : String → Dict String ℕ → Option (ℕ × Dict String ℕ))
      → ((t : String) (l : ℕ) (levels levels' : Dict String ℕ)
          → IsRight edges levels
          → visit t levels ≡ some (l, levels')
          → Answers t l levels levels')
      → (ds : List String) (best : ℕ) (levels levels' : Dict String ℕ) (b : ℕ)
      → IsRight edges levels
      → highest visit ds best levels ≡ some (b, levels')
      → IsRight edges levels'
        × Extends levels levels'
        × ((f : ℕ) × (m : ℕ) × (heights (height edges f) ds ≡ some m) × (b ≡ max best m))
  unfolding highest heights
  highest-IsRight visit answers [] best levels levels' b right e =
      let same : levels ≡ levels' = ground arith in
      (rw (← same) right, rw (← same) (λ t l at_t. at_t), (0, 0, refl, ground arith))
  highest-IsRight visit answers (d ∷ ds) best levels levels' b right e =
      elim (Option-cases (visit d levels)) [
        | inl missing ↦ absurd (ground arith)
        | inr (p, found) ↦
            let (right1, up1, here, (f1, h1)) = answers d p.0 levels p.1 right found in
            let (right2, up2, (f2, m, h2, eq)) =
              highest-IsRight visit answers ds (max best p.0) p.1 levels' b right1 (ground arith) in
            let first = height_mono edges f1 (f1 + f2) d {l = p.0} (omega arith) h1 in
            let later =
              heights_mono (height edges f2) (height edges (f1 + f2)) ds {b = m}
                (λ c l. height_mono edges f2 (f1 + f2) c {l = l} (omega arith)) h2 in
            (
              right2,
              λ t l at_t. up2 t l (up1 t l at_t),
              (f1 + f2, max p.0 m, ground arith, omega arith),
            )
      ]

  settled :
      (f l : ℕ) (t : String) (levels levels' : Dict String ℕ)
      → Dict.get t levels ≡ none
      → IsRight edges levels'
      → Extends levels levels'
      → height edges f t ≡ some l
      → Answers t l levels (Dict.put t l levels')
  settled f l t levels levels' absent right up h = (
    IsRight-put edges f l t levels' h right,
    Extends-put l t levels levels' absent up,
    get-put_self t l levels',
    (f, h),
  )

  height_source : (t : String) → incoming t edges ≡ [] → height edges 1 t ≡ some 0
  unfolding height heights
  height_source t source = ground arith

  height_inner :
      (f m : ℕ) (t d : String) (ds : List String)
      → incoming t edges ≡ d ∷ ds
      → heights (height edges f) (d ∷ ds) ≡ some m
      → height edges (suc f) t ≡ some (m + 1)
  unfolding height
  height_inner f m t d ds some_in h = rw (some_in, height) (rw h refl)

  module _ (f : ℕ) (t : String) (levels : Dict String ℕ) where
    pub get_level_known :
        (k : ℕ) → Dict.get t levels ≡ some k → get_level edges (suc f) t levels ≡ some (k, levels)
    unfolding get_level
    get_level_known k known = ground arith

    pub get_level_source :
        Dict.get t levels ≡ none
        → incoming t edges ≡ []
        → get_level edges (suc f) t levels ≡ some (0, Dict.put t 0 levels)
    unfolding get_level
    get_level_source absent source = ground arith

    pub get_level_inner :
        (d : String) (ds : List String)
        → Dict.get t levels ≡ none
        → incoming t edges ≡ d ∷ ds
        → get_level edges (suc f) t levels ≡ elim (highest (get_level edges f) (d ∷ ds) 0 levels) [
          | none ↦ none
          | some (best, levels') ↦ some (best + 1, Dict.put t (best + 1) levels')
        ]
    unfolding get_level
    get_level_inner d ds absent some_in = ground arith

  pub get_level-IsRight :
      (f : ℕ) (t : String) (l : ℕ) (levels levels' : Dict String ℕ)
      → IsRight edges levels
      → get_level edges f t levels ≡ some (l, levels')
      → Answers t l levels levels'
  get_level-IsRight zero t l levels levels' right e = unfold get_level in cc (e)
  get_level-IsRight (suc f) t l levels levels' right e = elim (Option-cases (Dict.get t levels)) [
    | inr (k, known) ↦
        let step = sym (get_level_known f t levels k known) ∙ e in
        let same : (k ≡ l) × (levels ≡ levels') = ground (arith, step) in
        rw (← same.0) (rw (← same.1) (right, λ u j at_u. at_u, known, right t k known))
    | inl absent ↦ elim (List-cases (incoming t edges)) [
      | inl source ↦
          let step = sym (get_level_source f t levels absent source) ∙ e in
          let same : (0 ≡ l) × (Dict.put t 0 levels ≡ levels') = ground (arith, step) in
          rw (← same.0) (
            rw (← same.1) (
              settled 1 0 t levels levels absent right (λ u j at_u. at_u) (height_source t source)))
      | inr (d, ds, some_in) ↦
          let step = sym (get_level_inner f t levels d ds absent some_in) ∙ e in
          elim (Option-cases (highest (get_level edges f) (d ∷ ds) 0 levels)) [
            | inl missing ↦ absurd (ground (arith, step))
            | inr (p, found) ↦
                let (right1, up, (f1, m, h, eq)) =
                  highest-IsRight (get_level edges f) (get_level-IsRight f) (d ∷ ds) 0 levels p.1
                    p.0 right found in
                let same : (m + 1 ≡ l) × (Dict.put t (m + 1) p.1 ≡ levels') =
                  ground (arith, step) in
                rw (← same.0) (
                  rw (← same.1) (
                    settled (suc f1) (m + 1) t levels p.1 absent right1 up
                      (height_inner f1 m t d ds some_in h)))
          ]
    ]
  ]

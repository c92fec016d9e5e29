-- ===== src/Models/Dag/Levels.antt =====
-- The level of a task as the length of the longest chain of edges that ends in it, without the table
-- that `get_level` of src/models/dag.py keeps.
use cyber_security_platform.Prelude.{
  ℕ, zero, suc, ◌+◌, ◌≤◌, ◌<◌, max, String, true, Option, none, some, List, [], ◌∷◌, ◌≡◌, refl,
  arith, contains, ◌==◌, String-IsKey, Option-cases, inl, inr, Bool-cases,
}
use cyber_security_platform.Models.Dag.{Edge, incoming}
use cyber_security_platform.Models.Dag.Edges.{HasEdge, contains-incoming}

unfoldable pub heights : (String → Option ℕ) → List String → Option ℕ
heights h [] = some 0
heights h (d ∷ ds) = elim (h d) [
  | none ↦ none
  | some k ↦ elim (heights h ds) [ none ↦ none | some b ↦ some (max k b) ]
]

abbrev pub above : List String → Option ℕ → Option ℕ
above [] o = some 0
above (d ∷ ds) none = none
above (d ∷ ds) (some b) = some (b + 1)

-- The level of a task whose chains are shorter than the fuel.
unfoldable pub height : List Edge → ℕ → String → Option ℕ
height edges zero t = none
height edges (suc f) t = above (incoming t edges) (heights (height edges f) (incoming t edges))

pub heights_mono :
    (h k : String → Option ℕ) (ds : List String) {b : ℕ}
    → ((d : String) (l : ℕ) → h d ≡ some l → k d ≡ some l)
    → heights h ds ≡ some b
    → heights k ds ≡ some b
unfolding heights
heights_mono h k [] up e = e
heights_mono h k (d ∷ ds) {b} up e = elim (Option-cases (h d)) [
  | inl missing ↦ ground arith
  | inr (l, found) ↦ elim (Option-cases (heights h ds)) [
    | inl missing ↦ ground arith
    | inr (c, rest) ↦ ground (arith, up d l found, heights_mono h k ds {b = c} up rest)
  ]
]

-- More fuel gives the same level.
pub height_mono :
    (edges : List Edge) (f g : ℕ) (t : String) {l : ℕ}
    → f ≤ g
    → height edges f t ≡ some l
    → height edges g t ≡ some l
unfolding height
height_mono edges zero g t within e = cc
height_mono edges (suc f) zero t within e = elim within [ ]
height_mono edges (suc f) (suc g) t within e =
    elim (Option-cases (heights (height edges f) (incoming t edges))) [
      | inl missing ↦ ground arith
      | inr (b, found) ↦
          let up =
            heights_mono (height edges f) (height edges g) (incoming t edges) {b = b}
              (λ d l. height_mono edges f g d {l = l} (omega arith)) found in
          ground arith
    ]

heights-bound :
    (h : String → Option ℕ) (u : String) (ds : List String) {b : ℕ}
    → contains u ds ≡ true
    → heights h ds ≡ some b
    → (k : ℕ) × (h u ≡ some k) × (k ≤ b)
unfolding heights contains
heights-bound h u [] member e = cc
heights-bound h u (d ∷ ds) {b} member e = elim (Option-cases (h d)) [
  | inl missing ↦ absurd (ground arith)
  | inr (l, found) ↦ elim (Option-cases (heights h ds)) [
    | inl missing ↦ absurd (ground arith)
    | inr (c, rest) ↦
        let best : max l c ≡ b = ground arith in
        elim (Bool-cases (u == d)) [
          | inl same ↦
              let eq : u ≡ d = (String-IsKey.same_iff u d).0 same in (l, rw eq found, omega arith)
          | inr differs ↦
              let (k, at_u, bound) = heights-bound h u ds {b = c} (ground arith) rest in
              (k, at_u, omega arith)
        ]
  ]
]

above-contains :
    (u : String) (ds : List String) (o : Option ℕ) {l : ℕ}
    → contains u ds ≡ true
    → above ds o ≡ some l
    → (b : ℕ) × (o ≡ some b) × (l ≡ b + 1)
unfolding contains
above-contains u [] o member e = cc
above-contains u (d ∷ ds) none member e = cc
above-contains u (d ∷ ds) (some b) member e = (b, refl, ground arith)

-- An edge leads to a higher level.
pub height-HasEdge :
    (edges : List Edge) (f : ℕ) (u v : String) {l : ℕ}
    → HasEdge edges u v
    → height edges f v ≡ some l
    → (k : ℕ) × (height edges f u ≡ some k) × (k < l)
unfolding height
height-HasEdge edges zero u v e h = cc
height-HasEdge edges (suc f) u v {l} e h =
    let member = contains-incoming u v edges e in
    let (b, found, next) = above-contains u (incoming v edges) _ member h in
    let (k, at_u, bound) =
      heights-bound (height edges f) u (incoming v edges) {b = b} member found in
    (k, height_mono edges f (suc f) u {l = k} (omega arith) at_u, omega arith)

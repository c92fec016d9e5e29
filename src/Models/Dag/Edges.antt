-- ===== src/Models/Dag/Edges.antt =====
-- Edges and chains of edges of the graph of src/models/dag.py.
use cyber_security_platform.Prelude.{
  String, true, List, [], ◌∷◌, ◌++◌, ◌≡◌, ◌⊎◌, inl, inr, refl, arith, contains, String-IsKey,
}
use cyber_security_platform.Models.Dag.{Edge, incoming}

-- An edge from `u` to `v`.
abbrev pub HasEdge : List Edge → String → String → Type 0
HasEdge [] u v = ⊥
HasEdge (e ∷ es) u v = ((e.0 ≡ u) × (e.1 ≡ v)) ⊎ HasEdge es u v

-- One edge or more lead from `u` to `v`.
pub data Reaches (edges : List Edge) : String → String → Type 0 where
  once : {u v : String} → HasEdge edges u v → Reaches edges u v
  further : {u w v : String} → HasEdge edges u w → Reaches edges w v → Reaches edges u v

pub then_edge :
    {edges : List Edge} {u w v : String} → Reaches edges u w → HasEdge edges w v → Reaches edges u v
then_edge (once e) last = further e (once last)
then_edge (further e r) last = further e (then_edge r last)

pub contains-incoming :
    (u v : String) (es : List Edge) → HasEdge es u v → contains u (incoming v es) ≡ true
unfolding incoming contains
contains-incoming u v [] h = elim h [ ]
contains-incoming u v (e ∷ es) h =
    ground
      (arith, contains-incoming u v es, String-IsKey.same_iff e.1 v, String-IsKey.same_iff u e.0)

pub incoming-HasEdge :
    (u v : String) (es : List Edge) → contains u (incoming v es) ≡ true → HasEdge es u v
unfolding incoming contains
incoming-HasEdge u v [] h = cc
incoming-HasEdge u v (e ∷ es) h =
    ground
      (arith, incoming-HasEdge u v es, String-IsKey.same_iff e.1 v, String-IsKey.same_iff u e.0)

pub HasEdge-append : (u v : String) (es : List Edge) → HasEdge (es ++ (u, v) ∷ []) u v
HasEdge-append u v [] = inl (refl, refl)
HasEdge-append u v (e ∷ es) = inr (HasEdge-append u v es)

pub HasEdge-left : (u v : String) (es fs : List Edge) → HasEdge es u v → HasEdge (es ++ fs) u v
HasEdge-left u v [] fs h = elim h [ ]
HasEdge-left u v (e ∷ es) fs (inl h) = inl h
HasEdge-left u v (e ∷ es) fs (inr h) = inr (HasEdge-left u v es fs h)

pub Reaches-left :
    {es : List Edge} {u v : String} → (fs : List Edge) → Reaches es u v → Reaches (es ++ fs) u v
Reaches-left {es} {u} {v} fs (once e) = once (HasEdge-left u v es fs e)
Reaches-left {es} fs (further {u} {w} e r) = further (HasEdge-left u w es fs e) (Reaches-left fs r)

-- ===== src/Recovery/Escalation/Lifetime.antt =====
-- The methods of src/recovery/escalation_manager.py on escalations that exist.
use cyber_security_platform.Prelude.{
  get_elem?, ℕ, zero, suc, ◌-◌, ◌≤◌, String, true, Option, none, some, List, [], ◌∷◌, ◌++◌, ◌≡◌,
  refl, arith, leb, if◌then◌else◌, length, length-drop, filter_by, ◌==◌, String-IsKey, same_refl,
}
use cyber_security_platform.Prelude.Dict
use cyber_security_platform.Prelude.Dict.{Dict, get-remove, get-put_self}
use cyber_security_platform.Recovery.Escalation.{
  Escalation, EscalationManager, Policy, last_thousand,
}

pub register_policy : String → Policy → EscalationManager → EscalationManager
register_policy name policy m = record m { policies = Dict.put name policy m.policies }

module _ {ℓ} {A : Type ℓ} where
  -- Assignments to the keys of the object at a position.
  pub update_at : (A → A) → ℕ → List A → List A
  update_at f i [] = []
  update_at f zero (x ∷ xs) = f x ∷ xs
  update_at f (suc i) (x ∷ xs) = x ∷ update_at f i xs

pub acknowledge : String → String → EscalationManager → EscalationManager
acknowledge id user m = elim (Dict.get id m.active_escalations) [
  | none ↦ m
  | some i ↦ record m {
    objects = update_at (λ e. record e { acknowledged_by = some user }) i m.objects;
  }
]

pub resolve : String → String → EscalationManager → EscalationManager
resolve id resolution m = elim (Dict.get id m.active_escalations) [
  | none ↦ m
  | some i ↦ record m {
    objects =
        update_at (λ e. record e { resolved = true; resolution = some resolution }) i m.objects;
    active_escalations = Dict.remove id m.active_escalations;
  }
]

-- The objects at the positions.
pub objects_at : List Escalation → List ℕ → List Escalation
objects_at objects [] = []
objects_at objects (i ∷ is) = elim (get_elem? objects i) [
  | none ↦ objects_at objects is
  | some e ↦ e ∷ objects_at objects is
]

pub get_active_escalations : EscalationManager → List Escalation
get_active_escalations m = objects_at m.objects (Dict.values m.active_escalations)

-- `sorted(…, key=timestamp, reverse=True)`: the latest first, equal times in their order.
insert_by_time : Escalation → List Escalation → List Escalation
insert_by_time e [] = e ∷ []
insert_by_time e (f ∷ fs) =
    if leb f.timestamp e.timestamp then e ∷ f ∷ fs else f ∷ insert_by_time e fs

pub latest_first : List Escalation → List Escalation
unfolding insert_by_time
latest_first [] = []
latest_first (e ∷ es) = insert_by_time e (latest_first es)

abbrev take : ℕ → List Escalation → List Escalation
take zero es = []
take (suc n) [] = []
take (suc n) (e ∷ es) = e ∷ take n es

-- `if component:` and `if level:` pass over None and the empty text.
abbrev selected : Option String → (Escalation → String) → List Escalation → List Escalation
selected none field es = es
selected (some wanted) field es = if wanted == "" then es else filter_by (λ e. field e == wanted) es

pub get_escalation_history : Option String → Option String → ℕ → EscalationManager → List Escalation
get_escalation_history component level limit m = take limit (
    latest_first (
      selected level (λ e. e.level)
        (selected component (λ e. e.component) (objects_at m.objects m.history))))

module _ {ℓ} {A : Type ℓ} where
  pub get_elem?-append : (xs : List A) (x : A) → get_elem? (xs ++ x ∷ []) (length xs) ≡ some x
  get_elem?-append [] x = refl
  get_elem?-append (y ∷ xs) x = get_elem?-append xs x

  get_elem?-update_at :
      (f : A → A) (i : ℕ) (xs : List A) {x : A}
      → get_elem? xs i ≡ some x
      → get_elem? (update_at f i xs) i ≡ some (f x)
  unfolding update_at
  get_elem?-update_at f zero [] h = cc
  get_elem?-update_at f (suc i) [] h = cc
  get_elem?-update_at f zero (y ∷ xs) h = cc
  get_elem?-update_at f (suc i) (y ∷ xs) h = get_elem?-update_at f i xs h

acknowledge_inactive :
    (id user : String) (m : EscalationManager)
    → Dict.get id m.active_escalations ≡ none
    → acknowledge id user m ≡ m
unfolding acknowledge
acknowledge_inactive id user m absent = rw (absent, acknowledge)

resolve_inactive :
    (id resolution : String) (m : EscalationManager)
    → Dict.get id m.active_escalations ≡ none
    → resolve id resolution m ≡ m
unfolding resolve
resolve_inactive id resolution m absent = rw (absent, resolve)

resolve_active :
    (id resolution : String) (m : EscalationManager) (i : ℕ)
    → Dict.get id m.active_escalations ≡ some i
    → resolve id resolution m ≡ record m {
      objects =
          update_at (λ e. record e { resolved = true; resolution = some resolution }) i m.objects;
      active_escalations = Dict.remove id m.active_escalations;
    }
unfolding resolve
resolve_active id resolution m i found = rw (found, resolve)

-- Resolving an active escalation takes it from the active ones and marks the object that the
-- history shows; an acknowledgement or another resolution afterwards changes nothing.
pub resolve_lem :
    (id resolution user again : String) (m : EscalationManager) (i : ℕ) (e : Escalation)
    → Dict.get id m.active_escalations ≡ some i
    → get_elem? m.objects i ≡ some e
    → let m' = resolve id resolution m in
      (Dict.get id m'.active_escalations ≡ none)
      × (get_elem? m'.objects i ≡ some (record e { resolved = true; resolution = some resolution }))
      × (m'.history ≡ m.history)
      × (acknowledge id user m' ≡ m')
      × (resolve id again m' ≡ m')
resolve_lem id resolution user again m i e found here =
    let absent : Dict.get id (Dict.remove id m.active_escalations) ≡ none =
      simp (get-remove, same_refl) in
    rw (resolve_active id resolution m i found) (
      absent,
      get_elem?-update_at _ i m.objects here,
      refl,
      acknowledge_inactive id user _ absent,
      resolve_inactive id again _ absent,
    )

pub last_thousand-le : (h : List ℕ) → length (last_thousand h) ≤ 1000
unfolding last_thousand
last_thousand-le h = ground (arith, length-drop (length h - 1000) h)

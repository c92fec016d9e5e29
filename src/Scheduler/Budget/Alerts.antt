-- ===== src/Scheduler/Budget/Alerts.antt =====
-- Which alerts a cost causes in src/scheduler/budget_tracker.py.
use cyber_security_platform.Prelude.{
  ℕ, ◌+◌, ◌*◌, ◌≤◌, ◌<◌, Bool, true, false, Option, none, some, List, [], ◌∷◌, ◌&&◌, leb, nat_beq,
  ◌≡◌, ◌⊎◌, inl, inr, refl, ap, arith, ◌∙◌, if◌then◌else◌, ℕ-IsKey, contains, Bool-cases,
  Option-cases, leb→le, subst, sym,
}
use cyber_security_platform.Prelude.Dict
use cyber_security_platform.Prelude.Dict.{get-put}
use cyber_security_platform.Scheduler.Budget.{
  Budget, Error, budget_exceeded, alerted_recently, noted_alert, send_budget_alert, check_each,
}
use cyber_security_platform.Scheduler.Budget.Thresholds.{
  times_alerted, times_alerted-append, Rises, crossed, contains-top, contains-head, passes_later,
  passes_other, passes_first,
}

module _ (now old new : ℕ) where
  -- Every alert so far was for a threshold that was reached before, or is not above `k`.
  abbrev pub Reached : ℕ → Budget → Type 0
  Reached k b =
      (t last : ℕ)
      → Dict.get t b.last_alert_sent ≡ some last
      → (t * b.limit ≤ old * 1_000) ⊎ ((t ≤ k) × (t * b.limit ≤ new * 1_000))

  -- What the loop leaves.
  pub record Checked (ts : List ℕ) (k : ℕ) (b : Budget) (raised : Option Error) (b' : Budget)
      : Type 0 where
    pub limit : b'.limit ≡ b.limit
    pub spent : b'.spent ≡ b.spent
    pub reached :
        (t last : ℕ)
        → Dict.get t b'.last_alert_sent ≡ some last
        → (t * b'.limit ≤ old * 1_000) ⊎ (t * b'.limit ≤ new * 1_000)
    pub alerts :
        (t : ℕ)
        → times_alerted t b'.alerts
          ≡ times_alerted t b.alerts + (if contains t ts && crossed old new b.limit t then 1 else 0)
    pub raises : raised ≡ (
        if contains 1_000 ts && crossed old new b.limit 1_000 then some budget_exceeded else none)

  step_skipped :
      (t : ℕ) (ts : List ℕ) (b : Budget)
      → crossed old new b.limit t ≡ false
      → check_each now old new (t ∷ ts) b ≡ check_each now old new ts b
  unfolding check_each
  step_skipped t ts b h = rw (h, check_each) refl

  -- No alert of a threshold that the cost crosses has been sent.
  not_alerted :
      (t k : ℕ) (b : Budget)
      → crossed old new b.limit t ≡ true
      → k < t
      → Reached k b
      → alerted_recently now t b ≡ false
  unfolding alerted_recently
  not_alerted t k b h above reached = elim (Option-cases (Dict.get t b.last_alert_sent)) [
    | inl absent ↦ ground arith
    | inr (last, found) ↦ elim (reached t last found) [
      | inl before ↦ absurd (ground arith)
      | inr within ↦ absurd (omega arith)
    ]
  ]

  first_alert :
      (t : ℕ) (b : Budget) (last : Bool)
      → alerted_recently now t b ≡ false
      → leb 1_000 t ≡ last
      → send_budget_alert now t b
        ≡ (if last then some budget_exceeded else none, noted_alert now t b)
  unfolding send_budget_alert
  first_alert t b last quiet e = rw (← e) (ground arith)

  step_alerted :
      (t : ℕ) (ts : List ℕ) (b b' : Budget)
      → crossed old new b.limit t ≡ true
      → send_budget_alert now t b ≡ (none, b')
      → check_each now old new (t ∷ ts) b ≡ check_each now old new ts b'
  unfolding check_each
  step_alerted t ts b b' h sent =
      rw (h, check_each)
        (ap
          (λ (r : Option Error × Budget). elim r.0 as (λ x. Option Error × Budget) [
            | none ↦ check_each now old new ts r.1
            | some e ↦ (some e, r.1)
          ])
          sent)

  step_raised :
      (t : ℕ) (ts : List ℕ) (b b' : Budget)
      → crossed old new b.limit t ≡ true
      → send_budget_alert now t b ≡ (some budget_exceeded, b')
      → check_each now old new (t ∷ ts) b ≡ (some budget_exceeded, b')
  unfolding check_each
  step_raised t ts b b' h sent = rw (h, check_each) (ground arith)

  contains-Rises : (t k : ℕ) (ts : List ℕ) → Rises k ts → t ≤ k → contains t ts ≡ false
  unfolding contains
  contains-Rises t k [] rises h = refl
  contains-Rises t k (u ∷ ts) rises h = ground (arith, contains-Rises t u ts rises.2)

  Reached-noted :
      (t k : ℕ) (b : Budget)
      → crossed old new b.limit t ≡ true
      → k < t
      → Reached k b
      → Reached t (noted_alert now t b)
  unfolding noted_alert
  Reached-noted t k b h above reached u last found = elim (Bool-cases (nat_beq t u)) [
    | inl same ↦ inr (ground (arith), ground (arith))
    | inr differs ↦
        let before : Dict.get u b.last_alert_sent ≡ some last =
          ground (arith, get-put t u now b.last_alert_sent) in
        elim (reached u last before) [ inl r ↦ inl r | inr r ↦ inr (omega arith, r.1) ]
  ]

  noted_alert-times :
      (t u : ℕ) (b : Budget)
      → times_alerted u (noted_alert now t b).alerts
        ≡ times_alerted u b.alerts + (if nat_beq t u then 1 else 0)
  unfolding noted_alert
  noted_alert-times t u b = times_alerted-append u b.alerts _

  noted_alert-limit : (t : ℕ) (b : Budget) → (noted_alert now t b).limit ≡ b.limit
  unfolding noted_alert
  noted_alert-limit t b = refl

  noted_alert-spent : (t : ℕ) (b : Budget) → (noted_alert now t b).spent ≡ b.spent
  unfolding noted_alert
  noted_alert-spent t b = refl

  check_none : (b : Budget) → check_each now old new [] b ≡ (none, b)
  unfolding check_each
  check_none b = refl

  pub check_each-Checked :
      (ts : List ℕ) (k : ℕ) (b : Budget)
      → Rises k ts
      → Reached k b
      → let (raised, b') = check_each now old new ts b in Checked ts k b raised b'
  unfolding noted_alert
  check_each-Checked [] k b rises reached = rw check_none (record {
    limit = refl;
    spent = refl;
    reached = λ t last found. elim (reached t last found) [ inl r ↦ inl r | inr r ↦ inr r.1 ];
    alerts = λ t. unfold contains in omega arith;
    raises = unfold contains in refl;
  })
  check_each-Checked (t ∷ ts) k b rises reached = elim (Bool-cases (crossed old new b.limit t)) [
    | inr h ↦
        let weaker : Reached t b = λ u last found. elim (reached u last found) [
          | inl r ↦ inl r
          | inr r ↦ inr (omega (arith, r.0, rises.0), r.1)
        ] in
        let rest = check_each-Checked ts t b rises.2 weaker in
        rw (step_skipped t ts b h) (record {
          limit = rest.limit;
          spent = rest.spent;
          reached = rest.reached;
          alerts = λ u.
              rest.alerts u
              ∙ ap (λ (c : Bool). times_alerted u b.alerts + (if c then 1 else 0))
                  (passes_later (crossed old new b.limit) t u ts h);
          raises =
              rest.raises
              ∙ ap (λ (c : Bool). if c then some budget_exceeded else none)
                  (passes_later (crossed old new b.limit) t 1_000 ts h);
        })
    | inl h ↦
        let quiet = not_alerted t k b h rises.0 reached in
        let b1 = noted_alert now t b in
        let reached1 = Reached-noted t k b h rises.0 reached in
        elim (Bool-cases (leb 1_000 t)) [
          | inl last ↦ rw (step_raised t ts b b1 h (first_alert t b true quiet last)) (record {
            limit = noted_alert-limit t b;
            spent = noted_alert-spent t b;
            reached = λ u l found. elim (reached1 u l found) [ inl r ↦ inl r | inr r ↦ inr r.1 ];
            alerts = λ u.
                let first =
                  passes_first (crossed old new b.limit) t u ts h
                    (contains-Rises t t ts rises.2 (omega arith)) in
                let later = contains-top u t ts rises.2 (leb→le 1_000 t last) in
                let alone : ◌≡◌ {A = ℕ}
                    (if contains u ts && crossed old new b.limit u then 1 else 0) 0 =
                  rw later refl in
                omega (arith, noted_alert-times t u b, first, alone);
            raises =
                let top : t ≡ 1_000 = omega (arith, leb→le 1_000 t last, rises.1) in
                let on =
                  subst (λ (u : ℕ). (contains u (t ∷ ts) && crossed old new b.limit u) ≡ true) top
                    (contains-head (crossed old new b.limit) t ts h) in
                ap (λ (c : Bool). if c then some budget_exceeded else none) (sym on);
          })
          | inr before ↦
              let rest = check_each-Checked ts t b1 rises.2 reached1 in
              rw (step_alerted t ts b b1 h (first_alert t b false quiet before)) (record {
                limit = rest.limit ∙ noted_alert-limit t b;
                spent = rest.spent ∙ noted_alert-spent t b;
                reached = rest.reached;
                alerts = λ u.
                    let first =
                      passes_first (crossed old new b.limit) t u ts h
                        (contains-Rises t t ts rises.2 (omega arith)) in
                    omega (arith, rest.alerts u, noted_alert-times t u b, first);
                raises =
                    rest.raises
                    ∙ ap (λ (c : Bool). if c then some budget_exceeded else none)
                        (passes_other (crossed old new b.limit) t 1_000 ts (ground arith));
              })
        ]
  ]

-- ===== src/Orchestrator/Bus/History.antt =====
-- What the bounded history of src/orchestrator/communication_bus.py keeps of all that is published.
use mathlib.Core.List.{append_assoc, append-nil}
use cyber_security_platform.Prelude.{
  ℕ, ◌-◌, ◌≤◌, String, Bool, true, false, Option, List, [], ◌∷◌, ◌++◌, ◌≡◌, refl, sym, ◌∙◌, ap,
  arith, ltb, nat_beq, if◌then◌else◌, length, length-append, length-drop, drop, drop-append,
  drop-drop, ◌==◌, String-IsKey, Bool-cases, inl, inr, if_false, if_true, ◌⊎◌,
}
use cyber_security_platform.Prelude.Dict
use cyber_security_platform.Prelude.Dict.{Dict, get_default-put}
use cyber_security_platform.Orchestrator.Bus.{
  last_of, Message, CommunicationBus, new_bus, stored, get_history, publish,
}

module _ {A : Type 0} where
  last_of_lem : (n : ℕ) (xs : List A) → 1 ≤ n → last_of n xs ≡ drop (length xs - n) xs
  last_of_lem n xs one = if_false (nat_beq n 0) _ _ (ground arith)

  -- The last of the last.
  pub last_of-last_of :
      (m n : ℕ) (xs : List A) → 1 ≤ m → m ≤ n → last_of m (last_of n xs) ≡ last_of m xs
  last_of-last_of m n xs one less =
      ap (last_of m) (last_of_lem n xs (omega arith))
      ∙ last_of_lem m _ one
      ∙ drop-drop (length (drop (length xs - n) xs) - m) (length xs - n) xs
      ∙ ap (λ k. drop k xs) (omega (arith, length-drop (length xs - n) xs))
      ∙ sym (last_of_lem m xs one)

  -- Only the last ones matter for the last ones of a longer list.
  pub last_of-append :
      (n : ℕ) (xs ys : List A) → 1 ≤ n → last_of n (last_of n xs ++ ys) ≡ last_of n (xs ++ ys)
  last_of-append n xs ys one =
      ap (λ l. last_of n (l ++ ys)) (last_of_lem n xs one)
      ∙ ap (last_of n) (sym (drop-append (length xs - n) xs ys (omega arith)))
      ∙ last_of_lem n _ one
      ∙ drop-drop _ (length xs - n) (xs ++ ys)
      ∙ ap (λ k. drop k (xs ++ ys))
          (omega (arith, length-drop (length xs - n) (xs ++ ys), length-append xs ys))
      ∙ sym (last_of_lem n (xs ++ ys) one)

-- A call of `publish`.
pub record Publication (V : Type 0) : Type 0 where
  pub now : ℕ
  pub topic : String
  pub message : Message V
  pub persist : Bool

module _ {V : Type 0} where
  stored-last : (m : Message V) (ms : List (Message V)) → stored m ms ≡ last_of 1000 (ms ++ m ∷ [])
  unfolding stored
  stored-last m ms = elim (Bool-cases (ltb 1000 (length (ms ++ m ∷ [])))) [
    | inl long ↦ rw (long, stored) refl
    | inr short ↦
        let none_dropped : 0 ≡ length (ms ++ m ∷ []) - 1000 = ground arith in
        rw (short, stored) (ap (λ k. drop k (ms ++ m ∷ [])) none_dropped)
  ]

  -- All that is published under a topic to be kept, in the order of the calls.
  unfoldable pub persisted : String → List (Publication V) → List (Message V)
  persisted topic [] = []
  persisted topic (p ∷ ps) =
      if p.persist
      then if p.topic == topic then p.message ∷ persisted topic ps else persisted topic ps
      else persisted topic ps

  abbrev of_topic : String → CommunicationBus V → List (Message V)
  of_topic topic b = Dict.get_default topic [] b.history

module _ {V : Type 0} (raises : String → Message V → Option String) where
  abbrev after : Publication V → CommunicationBus V → CommunicationBus V
  after p b = publish raises p.now p.topic p.message p.persist b

  abbrev pub publish_all : List (Publication V) → CommunicationBus V → CommunicationBus V
  publish_all [] b = b
  publish_all (p ∷ ps) b = publish_all ps (after p b)

  of_topic-kept :
      (topic : String) (p : Publication V) (b : CommunicationBus V)
      → p.persist ≡ true
      → (p.topic == topic) ≡ true
      → of_topic topic (after p b) ≡ last_of 1000 (of_topic topic b ++ p.message ∷ [])
  unfolding publish
  of_topic-kept topic p b kept same =
      let here : p.topic ≡ topic = (String-IsKey.same_iff _ _).0 same in
      let old = of_topic p.topic b in
      rw (kept, publish)
        (get_default-put p.topic topic [] (stored p.message old) b.history
          ∙ if_true (p.topic == topic) (stored p.message old) (of_topic topic b) same
          ∙ stored-last p.message old
          ∙ ap (λ t. last_of 1000 (of_topic t b ++ p.message ∷ [])) here)

  of_topic-left :
      (topic : String) (p : Publication V) (b : CommunicationBus V)
      → (p.persist ≡ false) ⊎ ((p.topic == topic) ≡ false)
      → of_topic topic (after p b) ≡ of_topic topic b
  unfolding publish
  of_topic-left topic p b (inl forgotten) = rw (forgotten, publish) refl
  of_topic-left topic p b (inr other) = elim (Bool-cases p.persist) [
    | inl kept ↦
        rw (kept, publish)
          (get_default-put p.topic topic [] (stored p.message (of_topic p.topic b)) b.history
            ∙ if_false (p.topic == topic) _ (of_topic topic b) other)
    | inr forgotten ↦ rw (forgotten, publish) refl
  ]

  Kept-cases :
      (topic : String) (p : Publication V)
      → ((p.persist ≡ true) × ((p.topic == topic) ≡ true))
        ⊎ ((p.persist ≡ false) ⊎ ((p.topic == topic) ≡ false))
  Kept-cases topic p = ground arith

  persisted-kept :
      (topic : String) (p : Publication V) (ps : List (Publication V))
      → p.persist ≡ true
      → (p.topic == topic) ≡ true
      → persisted topic (p ∷ ps) ≡ p.message ∷ persisted topic ps
  unfolding persisted
  persisted-kept topic p ps kept same = ground arith

  persisted-left :
      (topic : String) (p : Publication V) (ps : List (Publication V))
      → (p.persist ≡ false) ⊎ ((p.topic == topic) ≡ false)
      → persisted topic (p ∷ ps) ≡ persisted topic ps
  unfolding persisted
  persisted-left topic p ps left = ground arith

  kept_history :
      (topic : String) (ps : List (Publication V)) (b : CommunicationBus V)
      → last_of 1000 (of_topic topic (publish_all ps b))
        ≡ last_of 1000 (of_topic topic b ++ persisted topic ps)
  unfolding persisted
  kept_history topic [] b = ap (last_of 1000) (sym (append-nil (of_topic topic b)))
  kept_history topic (p ∷ ps) b =
      let later = kept_history topic ps (after p b) in
      let rest = persisted topic ps in
      let with_rest = λ (l : List (Message V)). last_of 1000 (l ++ rest) in
      let so_far = of_topic topic b in
      elim (Kept-cases topic p) [
        | inr left ↦
            later
            ∙ ap with_rest (of_topic-left topic p b left)
            ∙ ap (λ l. last_of 1000 (so_far ++ l)) (sym (persisted-left topic p ps left))
        | inl (kept, same) ↦
            later
            ∙ ap with_rest (of_topic-kept topic p b kept same)
            ∙ last_of-append 1000 (so_far ++ p.message ∷ []) rest (omega arith)
            ∙ ap (last_of 1000) (append_assoc so_far (p.message ∷ []) rest)
            ∙ ap (λ l. last_of 1000 (so_far ++ l)) (sym (persisted-kept topic p ps kept same))
      ]

  -- After any calls of `publish` on a new bus, the history of a topic, asked for at most 1000
  -- messages, is the last ones of all that was published under the topic to be kept.
  pub get_history-publish_all :
      (topic : String) (limit : ℕ) (ps : List (Publication V))
      → 1 ≤ limit
      → limit ≤ 1000
      → get_history topic limit (publish_all ps (new_bus V)) ≡ last_of limit (persisted topic ps)
  unfolding get_history Dict.get_default Dict.get
  get_history-publish_all topic limit ps one few =
      sym (last_of-last_of limit 1000 (of_topic topic (publish_all ps (new_bus V))) one few)
      ∙ ap (last_of limit) (kept_history topic ps (new_bus V))
      ∙ last_of-last_of limit 1000 (persisted topic ps) one few

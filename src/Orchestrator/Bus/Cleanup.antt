-- ===== src/Orchestrator/Bus/Cleanup.antt =====
-- What `cleanup_execution` of src/orchestrator/communication_bus.py removes.
use cyber_security_platform.Prelude.{
  String, Bool, Option, none, List, [], ◌∷◌, ◌≡◌, refl, ◌∙◌, ap, arith, ◌&&◌, if◌then◌else◌,
  filter_by, contains, ◌==◌, String-IsKey, Bool-cases, inl, inr, same_sym,
}
use cyber_security_platform.Prelude.Texts.{occurs}
use cyber_security_platform.Prelude.Dict
use cyber_security_platform.Prelude.Dict.{Dict, get-remove}
use cyber_security_platform.Orchestrator.Bus.{CommunicationBus, remove_topics, cleanup_execution}

contains-filter_by :
    (f : String → Bool) (t : String) (xs : List String)
    → contains t (filter_by f xs) ≡ (f t && contains t xs)
unfolding contains
contains-filter_by f t [] = ground arith
contains-filter_by f t (x ∷ xs) = elim (Bool-cases (t == x)) [
  | inl same ↦
      let e : t ≡ x = (String-IsKey.same_iff t x).0 same in
      ground (arith, contains-filter_by f t xs, ap f e)
  | inr other ↦ ground (arith, contains-filter_by f t xs)
]

contains-keys :
    {W : Type 0} (t : String) (d : Dict String W) → contains t (Dict.keys d) ≡ Dict.has t d
unfolding contains Dict.has Dict.get
contains-keys t [] = refl
contains-keys t ((j, w) ∷ d) = ground (arith, contains-keys t d, same_sym t j)

-- What a dict has after the removal.
abbrev removed : {W : Type 0} → Bool → Option W → Option W
removed b old = if b then none else old

-- Each part of the bus loses these topics.
pub record Loses {V : Type 0} (gone : String → Bool) (b b' : CommunicationBus V) : Type 0 where
  pub topics : (t : String) → Dict.get t b'.topics ≡ removed (gone t) (Dict.get t b.topics)
  pub queues : (t : String) → Dict.get t b'.queues ≡ removed (gone t) (Dict.get t b.queues)
  pub history : (t : String) → Dict.get t b'.history ≡ removed (gone t) (Dict.get t b.history)
  pub dead_letter_queue : b'.dead_letter_queue ≡ b.dead_letter_queue

removed-remove :
    {W : Type 0} (t k : String) (ks : List String) (d : Dict String W)
    → removed (contains t ks) (Dict.get t (Dict.remove k d))
      ≡ removed (contains t (k ∷ ks)) (Dict.get t d)
unfolding contains
removed-remove t k ks d = ground (arith, get-remove k t d, same_sym t k)

module _ {V : Type 0} where
  remove_topics-Loses :
      (ks : List String) (b : CommunicationBus V)
      → Loses (λ t. contains t ks) b (remove_topics ks b)
  unfolding remove_topics contains
  remove_topics-Loses [] b = record {
    topics = λ t. refl;
    queues = λ t. refl;
    history = λ t. refl;
    dead_letter_queue = refl;
  }
  remove_topics-Loses (k ∷ ks) b =
      let b1 : CommunicationBus V = record {
        topics = Dict.remove k b.topics;
        queues = Dict.remove k b.queues;
        history = Dict.remove k b.history;
        dead_letter_queue = b.dead_letter_queue;
      } in
      let later = remove_topics-Loses ks b1 in
      record {
        topics = λ t. later.topics t ∙ removed-remove t k ks b.topics;
        queues = λ t. later.queues t ∙ removed-remove t k ks b.queues;
        history = λ t. later.history t ∙ removed-remove t k ks b.history;
        dead_letter_queue = later.dead_letter_queue;
      }

  -- `cleanup_execution` removes the subscribers, the queue and the history of exactly the topics that
  -- have been subscribed to and whose names have the identifier in them. A queue or a history of a
  -- topic without an entry of subscribers stays, and so do the dead letters.
  pub cleanup_execution-Loses :
      (id : String) (b : CommunicationBus V)
      → Loses (λ t. occurs id t && Dict.has t b.topics) b (cleanup_execution id b)
  unfolding cleanup_execution
  cleanup_execution-Loses id b =
      let found = remove_topics-Loses (filter_by (occurs id) (Dict.keys b.topics)) b in
      let same = λ (t : String).
        contains-filter_by (occurs id) t (Dict.keys b.topics)
        ∙ ap (λ x. occurs id t && x) (contains-keys t b.topics) in
      record {
        topics = λ t. found.topics t ∙ ap (λ x. removed x (Dict.get t b.topics)) (same t);
        queues = λ t. found.queues t ∙ ap (λ x. removed x (Dict.get t b.queues)) (same t);
        history = λ t. found.history t ∙ ap (λ x. removed x (Dict.get t b.history)) (same t);
        dead_letter_queue = found.dead_letter_queue;
      }

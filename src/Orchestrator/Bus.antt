-- ===== src/Orchestrator/Bus.antt =====
-- src/orchestrator/communication_bus.py. A subscriber is named: `raises` says which of its calls raise
-- an exception, with which text, and subscribers do not call the bus. A message is a dict, `text`
-- makes a text one of its values. The identifier and the time of a message are arguments. Taking
-- messages from the queues is up to asyncio.
pub mod Cleanup
pub mod History
mod Samples
use cyber_security_platform.Prelude.{
  ℕ, ◌+◌, ◌-◌, String, Bool, Option, none, some, List, [], ◌∷◌, ◌++◌, ◌≡◌, ltb, nat_beq,
  if◌then◌else◌, length, drop, filter_by, contains, ◌==◌, String-IsKey,
}
use cyber_security_platform.Prelude.Texts.{occurs}
use cyber_security_platform.Prelude.Dict
use cyber_security_platform.Prelude.Dict.{Dict}

-- `xs[-n:]`, which is all of the list for 0.
abbrev pub last_of : {A : Type 0} → ℕ → List A → List A
last_of n xs = if nat_beq n 0 then xs else drop (length xs - n) xs

-- `xs[-1]`
abbrev pub last : {A : Type 0} → List A → Option A
last [] = none
last (x ∷ xs) = elim (last xs) [ none ↦ some x | some y ↦ some y ]

abbrev pub Message : Type 0 → Type 0
Message V = Dict String V

pub record DeadLetter (V : Type 0) : Type 0 where
  pub message : Message V
  pub subscriber : String
  pub error : String
  pub timestamp : ℕ

pub record CommunicationBus (V : Type 0) : Type 0 where
  pub topics : Dict String (List String)
  pub queues : Dict String (List (Message V))
  pub history : Dict String (List (Message V))
  pub dead_letter_queue : List (DeadLetter V)

abbrev pub new_bus : (V : Type 0) → CommunicationBus V
new_bus V = record { topics = []; queues = []; history = []; dead_letter_queue = [] }

-- `list.remove`
abbrev pub remove_first : String → List String → List String
remove_first s [] = []
remove_first s (t ∷ ts) = if t == s then ts else t ∷ remove_first s ts

module _ {V : Type 0} (text : String → V) where
  -- The keys of the message win over those of the bus.
  abbrev pub put_all : Message V → Message V → Message V
  put_all [] d = d
  put_all ((k, v) ∷ message) d = put_all message (Dict.put k v d)

  abbrev pub enriched : (id topic time : String) → Message V → Message V
  enriched id topic time message =
      put_all message (("id", text id) ∷ ("topic", text topic) ∷ ("timestamp", text time) ∷ [])

module _ {V : Type 0} where
  -- The list with a message more, of which the last thousand are kept.
  unfoldable pub stored : Message V → List (Message V) → List (Message V)
  stored m ms =
      if ltb 1000 (length (ms ++ m ∷ [])) then last_of 1000 (ms ++ m ∷ []) else ms ++ m ∷ []

  unfoldable pub get_queue : String → CommunicationBus V → List (Message V) × CommunicationBus V
  get_queue topic b = elim (Dict.get topic b.queues) [
    | none ↦ ([], record b { queues = Dict.put topic [] b.queues })
    | some q ↦ (q, b)
  ]

  unfoldable pub get_last : String → CommunicationBus V → Option (Message V)
  get_last topic b = last (Dict.get_default topic [] b.history)

  unfoldable pub get_history : String → (limit : ℕ) → CommunicationBus V → List (Message V)
  get_history topic limit b = last_of limit (Dict.get_default topic [] b.history)

  unfoldable pub unsubscribe : String → String → CommunicationBus V → CommunicationBus V
  unsubscribe topic callback b = elim (Dict.get topic b.topics) [
    | none ↦ b
    | some ss ↦
        if contains callback ss
        then record b { topics = Dict.put topic (remove_first callback ss) b.topics }
        else b
  ]

  unfoldable pub remove_topics : List String → CommunicationBus V → CommunicationBus V
  remove_topics [] b = b
  remove_topics (t ∷ ts) b = remove_topics ts (record b {
    topics = Dict.remove t b.topics;
    queues = Dict.remove t b.queues;
    history = Dict.remove t b.history;
  })

  unfoldable pub cleanup_execution : String → CommunicationBus V → CommunicationBus V
  unfolding remove_topics
  cleanup_execution id b = remove_topics (filter_by (occurs id) (Dict.keys b.topics)) b

module _ {V : Type 0} (raises : String → Message V → Option String) where
  -- The calls of the subscribers: one that raises an exception leaves a dead letter.
  unfoldable pub notify : (now : ℕ) → Message V → List String → List (DeadLetter V)
  notify now m [] = []
  notify now m (s ∷ ss) = elim (raises s m) [
    | none ↦ notify now m ss
    | some e ↦ record { message = m; subscriber = s; error = e; timestamp = now } ∷ notify now m ss
  ]

  -- What `publish` does with the message once its metadata is there.
  unfoldable pub publish :
      (now : ℕ) → String → Message V → (persist : Bool) → CommunicationBus V → CommunicationBus V
  unfolding stored notify
  publish now topic m persist b = record {
    topics = b.topics;
    history =
        if persist
        then Dict.put topic (stored m (Dict.get_default topic [] b.history)) b.history
        else b.history;
    dead_letter_queue = b.dead_letter_queue ++ notify now m (Dict.get_default topic [] b.topics);
    queues = elim (Dict.get topic b.queues) [
      | none ↦ b.queues
      | some q ↦ Dict.put topic (q ++ m ∷ []) b.queues
    ];
  }

  -- The replay to a new subscriber, up to the first exception: that, and the messages before it.
  unfoldable pub replay : String → List (Message V) → Option String × List (Message V)
  replay callback [] = (none, [])
  replay callback (m ∷ ms) =
      let (raised, seen) = replay callback ms in
      elim (raises callback m) [ none ↦ (raised, m ∷ seen) | some e ↦ (some e, []) ]

  unfoldable pub subscribe :
      String → String → CommunicationBus V → (Option String × List (Message V)) × CommunicationBus V
  unfolding replay
  subscribe topic callback b = (
    replay callback (last_of 10 (Dict.get_default topic [] b.history)),
    record b {
      topics = Dict.put topic (Dict.get_default topic [] b.topics ++ callback ∷ []) b.topics;
    },
  )

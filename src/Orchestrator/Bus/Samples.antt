-- ===== src/Orchestrator/Bus/Samples.antt =====
-- The message bus on small inputs.
use cyber_security_platform.Prelude.{
  String, true, false, Option, none, some, List, [], ◌∷◌, ◌≡◌, refl, arith, ◌&&◌, ◌==◌,
  String-IsKey, contains, if◌then◌else◌,
}
use cyber_security_platform.Prelude.Texts.{occurs}
use cyber_security_platform.Prelude.Dict
use cyber_security_platform.Prelude.Dict.{Dict}
use cyber_security_platform.Orchestrator.Bus.{
  last_of, Message, CommunicationBus, new_bus, enriched, stored, get_queue, get_last, get_history,
  unsubscribe, cleanup_execution, remove_topics, notify, publish, replay, subscribe,
}
use cyber_security_platform.Orchestrator.Bus.History.{
  Publication, persisted, publish_all, get_history-publish_all,
}
use cyber_security_platform.Orchestrator.Bus.Cleanup.{Loses, cleanup_execution-Loses}

program : Unit {0}
unfolding Dict.get Dict.put Dict.remove Dict.get_default contains stored get_queue get_last
    get_history unsubscribe cleanup_execution remove_topics notify publish replay subscribe
    persisted
program = tt

abbrev plain : String → String
plain t = t

-- The identifier of the caller's message wins.
abbrev first_message : Message String
first_message = enriched plain "1" "scan:x" "now" (("id", "mine") ∷ [])

own_id : Dict.get "id" first_message ≡ some "mine"
unfolding program
own_id = refl

abbrev second_message : Message String
second_message = enriched plain "2" "scan:x" "now" []

abbrev angry : String → Message String → Option String
angry s m = if s == "a" then some "no" else none

abbrev bus : CommunicationBus String
bus = (subscribe angry "scan:x" "b" (subscribe angry "scan:x" "a" (new_bus String)).1).1

abbrev told : CommunicationBus String
told = publish angry 7 "scan:x" first_message true bus

one_dead :
    told.dead_letter_queue
    ≡ record { message = first_message; subscriber = "a"; error = "no"; timestamp = 7 } ∷ []
unfolding program
one_dead = refl

replay_raises : (subscribe angry "scan:x" "a" told).0 ≡ (some "no", [])
unfolding program
replay_raises = refl

abbrev calls : List (Publication String)
calls =
    record { now = 1; topic = "scan:x"; message = first_message; persist = true }
    ∷ record { now = 2; topic = "scan:y"; message = second_message; persist = true }
    ∷ record { now = 3; topic = "scan:x"; message = second_message; persist = false }
    ∷ record { now = 4; topic = "scan:x"; message = second_message; persist = true }
    ∷ []

kept_two : persisted "scan:x" calls ≡ first_message ∷ second_message ∷ []
unfolding program
kept_two = refl

get_history-publish_all_example :
    get_history "scan:x" 1 (publish_all angry calls (new_bus String))
    ≡ last_of 1 (persisted "scan:x" calls)
get_history-publish_all_example =
    get_history-publish_all angry "scan:x" 1 calls (omega arith) (omega arith)

-- Without a subscriber, the history stays.
abbrev unheard : CommunicationBus String
unheard = publish_all angry calls (new_bus String)

still_there : get_last "scan:y" (cleanup_execution "y" unheard) ≡ some second_message
unfolding program
still_there = refl

cleanup_execution-Loses_example :
    Loses (λ t. occurs "x" t && Dict.has t told.topics) told (cleanup_execution "x" told)
cleanup_execution-Loses_example = cleanup_execution-Loses "x" told

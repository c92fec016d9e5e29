-- ===== src/Recovery/Escalation/Samples.antt =====
-- The escalation manager on small inputs.
use cyber_security_platform.Prelude.{
  get_elem?, none, some, [], ◌∷◌, ◌≡◌, refl, String-IsKey, contains, true, false,
}
use cyber_security_platform.Prelude.Dict
use cyber_security_platform.Recovery.Escalation.{
  Escalation, EscalationManager, init, text, escalate, step, default_policy,
}
use cyber_security_platform.Recovery.Escalation.Lifetime.{acknowledge, resolve, resolve_lem}

program : Unit {0}
unfolding escalate default_policy Dict.get Dict.put Dict.get_default contains
program = tt

abbrev failing : EscalationManager
failing = (escalate 5 "5.0" (text "error") "scan" "All retries failed" none init).1

abbrev stored : Escalation
stored = record {
  id = "scan_5.0";
  level = "error";
  component = "scan";
  message = "All retries failed";
  timestamp = 5;
  acknowledged_by = none;
  resolved = false;
  resolution = none;
  notifications_sent =
      record { channel = "log"; step = step 0 ("log" ∷ "email" ∷ []) }
      ∷ record { channel = "email"; step = step 0 ("log" ∷ "email" ∷ []) }
      ∷ record { channel = "slack"; step = step 600 ("slack" ∷ []) }
      ∷ [];
}

failing_found :
    (Dict.get "scan_5.0" failing.active_escalations ≡ some 0)
    × (get_elem? failing.objects 0 ≡ some stored)
unfolding program
failing_found = (refl, refl)

resolve_lem_example :
    let m' = resolve "scan_5.0" "fixed" failing in
    (Dict.get "scan_5.0" m'.active_escalations ≡ none)
    × (get_elem? m'.objects 0 ≡ some (record stored { resolved = true; resolution = some "fixed" }))
    × (m'.history ≡ failing.history)
    × (acknowledge "scan_5.0" "ann" m' ≡ m')
    × (resolve "scan_5.0" "again" m' ≡ m')
resolve_lem_example =
    resolve_lem "scan_5.0" "fixed" "ann" "again" failing 0 stored failing_found.0 failing_found.1

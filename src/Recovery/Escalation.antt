-- ===== src/Recovery/Escalation.antt =====
-- src/recovery/escalation_manager.py. An escalation is one object that `active_escalations` and
-- `history` share, so objects stand in a list of their own and both hold positions in it.
-- The five `_notify_*` methods log and return True.
pub mod Lifetime
pub mod Notices
mod Samples
use cyber_security_platform.Prelude.{
  ℕ, zero, suc, ◌+◌, ◌-◌, String, Bool, true, false, Option, none, some, List, [], ◌∷◌, ◌++◌, map,
  ltb, leb, if◌then◌else◌, length, drop, filter_by, contains, ◌==◌, String-IsKey,
}
use Prim.Native.String.{◌++◌ as append}
use cyber_security_platform.Prelude.Dict
use cyber_security_platform.Prelude.Dict.{Dict}

pub data EscalationLevel : Type 0 where
  debug info warning error critical : EscalationLevel

abbrev pub value : EscalationLevel → String
value debug = "debug"
value info = "info"
value warning = "warning"
value error = "error"
value critical = "critical"

-- Callers pass a member of the enum or its text.
pub data Level : Type 0 where
  member : EscalationLevel → Level
  text : String → Level

-- `level.value if isinstance(level, EscalationLevel) else level`
abbrev pub level_text : Level → String
level_text (member l) = value l
level_text (text t) = t

pub record Step : Type 0 where
  pub delay : ℕ
  pub channels : List String

abbrev pub Policy : Type 0
Policy = Dict String (List Step)

pub record Notice : Type 0 where
  pub channel : String
  pub step : Step

pub record Escalation : Type 0 where
  pub id : String
  pub level : String
  pub component : String
  pub message : String
  pub timestamp : ℕ
  pub acknowledged_by : Option String
  pub resolved : Bool
  pub resolution : Option String
  pub notifications_sent : List Notice

pub record EscalationManager : Type 0 where
  pub policies : Dict String Policy
  pub objects : List Escalation
  pub active_escalations : Dict String ℕ
  pub history : List ℕ

abbrev pub init : EscalationManager
init = record { policies = []; objects = []; active_escalations = []; history = [] }

abbrev pub channels : List String
channels = "log" ∷ "email" ∷ "slack" ∷ "pagerduty" ∷ "webhook" ∷ []

abbrev step : ℕ → List String → Step
step delay chans = record { delay = delay; channels = chans }

unfoldable pub default_policy : Policy
default_policy =
    ("debug", step 0 ("log" ∷ []) ∷ [])
    ∷ ("info", step 0 ("log" ∷ []) ∷ [])
    ∷ ("warning", step 0 ("log" ∷ []) ∷ step 300 ("email" ∷ []) ∷ [])
    ∷ ("error", step 0 ("log" ∷ "email" ∷ []) ∷ step 600 ("slack" ∷ []) ∷ [])
    ∷ ("critical", step 0 ("log" ∷ "email" ∷ "slack" ∷ []) ∷ step 300 ("pagerduty" ∷ []) ∷ [])
    ∷ []

-- The inner loop of `_apply_escalation_policy`: every known channel is notified.
unfoldable pub notify : Step → List String → Escalation → Escalation
notify s [] e = e
notify s (channel ∷ chans) e = notify s chans (
    if contains channel channels
    then record e {
      notifications_sent = e.notifications_sent ++ record { channel = channel; step = s } ∷ [];
    }
    else e)

-- The outer loop: the escalation after the steps.
unfoldable pub apply_steps : List Step → Escalation → Escalation
unfolding notify
apply_steps [] e = e
apply_steps (s ∷ steps) e =
    let e' = notify s s.channels e in
    let rest = apply_steps steps e' in if e'.resolved then e' else rest

unfoldable pub apply_escalation_policy : Policy → Escalation → Escalation
unfolding apply_steps
apply_escalation_policy policy e = apply_steps (Dict.get_default e.level [] policy) e

-- `if not policy`: a policy that is missing, or empty, gives way to the default.
or_default : Option Policy → Policy
or_default none = default_policy
or_default (some []) = default_policy
or_default (some (entry ∷ policy)) = entry ∷ policy

unfoldable pub policy_for : EscalationManager → String → Option String → Policy
unfolding or_default
policy_for m component none = or_default (Dict.get (append component "_policy") m.policies)
policy_for m component (some name) = or_default (
    if name == ""
    then Dict.get (append component "_policy") m.policies
    else Dict.get name m.policies)

-- `history[-1000:]` of a history that is longer than 1000.
unfoldable pub last_thousand : List ℕ → List ℕ
last_thousand h = if ltb 1000 (length h) then drop (length h - 1000) h else h

-- The exceptions of this file.
pub data EscalationError : Type 0 where
  name_error : EscalationError

-- `escalate` ends with `getattr(logging, …)`, and the file does not import `logging`: the call
-- raises NameError when all else is done. `stamp` is the text of the time in the identifier.
unfoldable pub escalate :
    (now : ℕ) (stamp : String)
    → Level
    → (component message : String) → Option String
    → EscalationManager
    → Option EscalationError × EscalationManager
unfolding policy_for apply_escalation_policy last_thousand
escalate now stamp level component message policy_name m =
    let id = append component (append "_" stamp) in
    let escalation : Escalation =
      apply_escalation_policy (policy_for m component policy_name) (record {
        id = id;
        level = level_text level;
        component = component;
        message = message;
        timestamp = now;
        acknowledged_by = none;
        resolved = false;
        resolution = none;
        notifications_sent = [];
      }) in
    let position = length m.objects in
    (
      some name_error,
      record m {
        objects = m.objects ++ escalation ∷ [];
        active_escalations = Dict.put id position m.active_escalations;
        history = last_thousand (m.history ++ position ∷ []);
      },
    )

-- ===== src/Recovery/Escalation/Notices.antt =====
-- Which notices an escalation sends, and how `escalate` ends.
use mathlib.Core.Option
use mathlib.Core.List.{append-nil, append_assoc}
use cyber_security_platform.Prelude.{
  get_elem?, ℕ, ◌≤◌, String, false, Option, some, List, [], ◌∷◌, ◌++◌, ◌≡◌, refl, ◌∙◌,
  if◌then◌else◌, length, contains, String-IsKey, if_false, Bool-cases, inl, inr,
}
use cyber_security_platform.Prelude.Dict
use cyber_security_platform.Prelude.Dict.{get-put_self}
use Prim.Native.String.{◌++◌ as append}
use cyber_security_platform.Recovery.Escalation.{
  Escalation, EscalationManager, name_error, Step, Notice, Level, level_text, channels, notify,
  apply_steps, apply_escalation_policy, policy_for, last_thousand, escalate,
}
use cyber_security_platform.Recovery.Escalation.Lifetime.{get_elem?-append, last_thousand-le}

-- The notices of the known channels of one step, and of every step.
abbrev pub step_notices : Step → List String → List Notice
step_notices s [] = []
step_notices s (channel ∷ chans) =
    if contains channel channels
    then record { channel = channel; step = s } ∷ step_notices s chans
    else step_notices s chans

abbrev pub all_notices : List Step → List Notice
all_notices [] = []
all_notices (s ∷ steps) = step_notices s s.channels ++ all_notices steps

notify_lem :
    (s : Step) (chans : List String) (e : Escalation)
    → notify s chans e
      ≡ record e { notifications_sent = e.notifications_sent ++ step_notices s chans }
unfolding notify
notify_lem s [] e = rw append-nil
notify_lem s (channel ∷ chans) e = elim (Bool-cases (contains channel channels)) [
  | inl known ↦ rw known (notify_lem s chans _ ∙ rw append_assoc)
  | inr unknown ↦ rw unknown (notify_lem s chans e)
]

apply_steps_lem :
    (steps : List Step) (e : Escalation)
    → e.resolved ≡ false
    → apply_steps steps e
      ≡ record e { notifications_sent = e.notifications_sent ++ all_notices steps }
unfolding apply_steps
apply_steps_lem [] e open_still = rw append-nil
apply_steps_lem (s ∷ steps) e open_still =
    rw notify_lem
      (if_false e.resolved _ _ open_still ∙ apply_steps_lem steps _ open_still ∙ rw append_assoc)

-- `escalate` always ends in NameError, after it has stored the escalation: the object is active
-- under its identifier, has sent the notices of every known channel of every step of its policy,
-- and stands at the end of the history, which has at most 1000 entries.
pub escalate_lem :
    (now : ℕ) (stamp : String) (level : Level) (component message : String)
    (policy_name : Option String) (m : EscalationManager)
    → let (raised, m') = escalate now stamp level component message policy_name m in
      let steps = Dict.get_default (level_text level) [] (policy_for m component policy_name) in
      (raised ≡ some name_error)
      × (Dict.get (append component (append "_" stamp)) m'.active_escalations
          ≡ some (length m.objects))
      × (Option.map (λ e. e.notifications_sent) (get_elem? m'.objects (length m.objects))
          ≡ some (all_notices steps))
      × (m'.history ≡ last_thousand (m.history ++ length m.objects ∷ []))
      × (length m'.history ≤ 1000)
unfolding escalate apply_escalation_policy
escalate_lem now stamp level component message policy_name m = (
  refl,
  get-put_self _ _ m.active_escalations,
  rw get_elem?-append (rw apply_steps_lem),
  refl,
  last_thousand-le (m.history ++ length m.objects ∷ []),
)

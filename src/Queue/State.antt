-- ===== src/Queue/State.antt =====
-- Package queue: an attempt and the objects that it holds, as its methods and the team's use them.
-- The flow manager, the store and the message broker are services: what they answer is an argument,
-- and what is sent to them is a list of effects, the latest first.
use call_center.Prelude.{ℕ, String, Option, List, ◌∷◌, Bool}
use call_center.Prelude.Int.{ℤ}
use call_center.Model.Maps.{StringMap}
use call_center.Model.Agent.{Agent}
use call_center.Model.Member.{MemberAttempt, MemberCommunication, AttemptCallback}
use call_center.Queue.Resource.{Resource}

-- The interface `Channel`, as far as it is read: `stats` is what `Stats` answers.
pub record Channel : Type 0 where
  pub id : String
  pub stats : StringMap
  pub answered : Bool

-- `BaseQueue`, as far as an attempt and a team read it; `hooks` gives the schema of an event.
pub record BaseQueue : Type 0 where
  pub channel : String
  pub id : ℤ
  pub updated_at : ℤ
  pub domain_id : ℤ
  pub name : String
  pub variables : StringMap
  pub after_schema_id : Option ℤ
  pub form_schema_id : Option ℤ
  pub processing : Bool
  pub processing_sec : ℕ
  pub processing_renewal_sec : ℕ
  pub endless : Bool
  pub hooks : List (String × ℕ)
  pub prolongation_steps : ℕ
  pub is_prolongation_enabled : Bool
  pub prolongation_sec : ℕ
  pub processing_autosave : Bool
  pub type_id : ℕ
  pub is_prolongation_timeout_retry : Bool
  pub ringtone_uri : Option String
  pub team_id : Option ℤ

-- `Attempt`. The map of the form's fields is an association list. Left out are the emitter's
-- subscriptions, the logger, the context, the form's connection and `Info`, which is never set.
pub record Attempt : Type 0 where
  pub member : MemberAttempt
  pub member_stop_cause : Option String
  pub state : String
  pub communication : MemberCommunication
  pub resource : Option Resource
  pub agent : Option Agent
  pub domain_id : ℤ
  pub channel : String
  pub queue : Option BaseQueue
  pub agent_channel : Option Channel
  pub member_channel : Option Channel
  pub result : Option AttemptCallback
  pub cancel_closed : Bool  -- `cancel` is closed
  pub canceled : Bool
  pub im_transfer_pending : Bool
  pub im_transfer_to : ℤ
  pub im_transferred_closed : Bool  -- `imTransferred` is closed
  pub max_attempts : ℕ
  pub wait_between : ℕ
  pub per_numbers : Bool
  pub exclude_curr_number : Bool
  pub redial : Bool
  pub description : Option String
  pub sticky_agent_id : Option ℤ
  pub processing_fields : StringMap
  pub processing_form_started : Bool
  pub bridged_at : ℤ
  pub transferred_at : ℤ
  pub process_transfer : Bool
  pub draft : Option AttemptCallback

-- What an event on an agent's channel says beside the attempt and the user.
pub data ChannelEvent : Type 0 where
  answered_event bridged_event waiting_event : ℤ → ChannelEvent
  processing_event : ℤ → ℤ → ℕ → ℕ → Option (ℕ × ℕ) → Bool → ChannelEvent
  missed_event : ℤ → ℤ → Option String → ChannelEvent
  wrap_time_event : ℤ → ℤ → ChannelEvent
  offering_event : ℤ → Option String → Option String → ChannelEvent

-- What is written of an attempt in the store.
pub record Outcome : Type 0 where
  pub result : String
  pub agent_hold_sec : ℕ
  pub variables : Option StringMap
  pub max_attempts : ℕ
  pub wait_between : ℕ
  pub per_numbers : Bool
  pub description : Option String
  pub sticky_agent_id : Option ℤ

pub data Effect : Type 0 where
  start_flow : ℕ → ℤ → StringMap → Effect
  result_schema : ℤ → Option (String × String) → StringMap → Effect
  distributed : Agent → Effect  -- the emitted `AttemptHookDistributeAgent`
  set_attempt_result : ℤ → Outcome → Effect
  set_attempt_missed : ℤ → ℕ → ℕ → ℕ → Bool → Effect
  set_attempt_missed_agent : ℤ → ℕ → Effect
  set_attempt_waiting_agent : ℤ → ℕ → Effect
  set_attempt_reporting : ℤ → ℕ → Effect
  set_attempt_bridged : ℤ → Effect
  set_attempt_offering : ℤ → ℤ → String → Option String → String → Option String → Effect
  set_attempt_abandoned : ℤ → ℕ → ℕ → Bool → Bool → Bool → Option String → Option ℤ → Effect
  cancel_agent_attempt : ℤ → ℕ → Effect
  cancel_attempt_and_release_agent : ℤ → Effect
  set_agent_break_out : ℤ → Effect
  start_processing_form : ℤ → Effect
  leaving_member : Effect
  reporting_attempt : ℤ → AttemptCallback → Effect  -- the manager's `ReportingAttempt`
  publish : String → ℤ → ℤ → ℤ → ChannelEvent → Effect  -- channel, domain, queue and user

-- An attempt and what has been sent.
pub record World : Type 0 where
  pub attempt : Attempt
  pub effects : List Effect

abbrev pub emit : Effect → World → World
emit e w = record w { effects = e ∷ w.effects }

abbrev pub put : Attempt → World → World
put a w = record w { attempt = a }

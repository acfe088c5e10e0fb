-- ===== src/Queue/Attempt.antt =====
-- queue/attempt.go: the fields of an attempt and the methods that read or set them. The mutex makes
-- each method atomic, so a method is a function of the attempt; none is a runtime panic. A method's
-- clock is an argument.
pub mod Variables
pub mod Schema
pub mod Transfer
pub mod Cancel
pub mod Export
pub mod Rules
pub mod Callback
mod Tests
use call_center.Prelude.{
  ℕ, String, Option, none, some, List, [], ◌∷◌, Bool, true, false, not, ◌&&◌, ◌||◌, if◌then◌else◌,
  ◌==s◌, string_key,
}
use call_center.Prelude.Int.{ℤ, pos, ◌==ℤ◌}
use call_center.Prelude.StringMap.{lookup, insert, delete}
use call_center.Model.Maps.{StringMap}
use call_center.Model.Agent.{Agent}
use call_center.Model.Member.{
  MemberAttempt, MemberCommunication, AttemptCallback, AttemptFlipResource, is_timeout,
}
use call_center.AgentManager.Agent.{user_id as agent_user_id}
use call_center.Queue.Resource.{get_display}
use call_center.Queue.State.{Attempt, BaseQueue, Effect, World, emit}

abbrev pub member_state_idle : String
member_state_idle = "idle"

abbrev pub member_state_wait_agent : String
member_state_wait_agent = "wait_agent"

abbrev pub member_state_bridged : String
member_state_bridged = "bridged"

-- `communication` is what `MemberDestinationFromBytes` reads in the member's destination, JSON.
unfoldable pub new_attempt : MemberCommunication → MemberAttempt → Attempt
new_attempt communication member = record {
  member = member;
  member_stop_cause = none;
  state = member_state_idle;
  communication = communication;
  resource = none;
  agent = none;
  domain_id = pos 0;
  channel = "";
  queue = none;
  agent_channel = none;
  member_channel = none;
  result = none;
  cancel_closed = false;
  canceled = false;
  im_transfer_pending = false;
  im_transfer_to = pos 0;
  im_transferred_closed = false;
  max_attempts = 0;
  wait_between = 0;
  per_numbers = false;
  exclude_curr_number = false;
  redial = false;
  description = none;
  sticky_agent_id = none;
  processing_fields = [];
  processing_form_started = false;
  bridged_at = pos 0;
  transferred_at = pos 0;
  process_transfer = false;
  draft = none;
}

unfoldable pub is_reserved_agent : ℤ → ℤ → Attempt → Bool
unfolding agent_user_id
is_reserved_agent agent_id user_id a = elim a.agent [
  | none ↦ false
  | some g ↦ if not (g.id ==ℤ agent_id) || not (agent_user_id g ==ℤ user_id) then false else true
]

unfoldable pub use_draft : Option AttemptCallback → Attempt → Attempt
use_draft draft a = record a { draft = draft }

unfoldable pub drop_draft_result : Attempt → Attempt
drop_draft_result a = record a { draft = none }

unfoldable pub is_processing_autosave_enabled : Attempt → Bool
is_processing_autosave_enabled a = elim a.queue [ none ↦ false | some q ↦ q.processing_autosave ]

unfoldable pub mark_processing_form_started : Attempt → Attempt
mark_processing_form_started a = record a { processing_form_started = true }

unfoldable pub mark_transferred : ℤ → Attempt → Attempt
mark_transferred now a = if a.transferred_at ==ℤ pos 0 then record a { transferred_at = now } else a

unfoldable pub set_member_stop_cause : Option String → Attempt → Attempt
set_member_stop_cause cause a = record a { member_stop_cause = cause }

unfoldable pub member_stop_cause : Attempt → String
member_stop_cause a = elim a.member_stop_cause [ none ↦ "" | some c ↦ c ]

unfoldable pub set_result : String → Attempt → Attempt
set_result result a = record a { member = record a.member { result = some result } }

unfoldable pub result : Attempt → String
result a = elim a.member.result [ none ↦ "" | some r ↦ r ]

unfoldable pub set_callback : AttemptCallback → Attempt → Attempt
unfolding set_result
set_callback callback a =
    let set = record a { result = some callback } in
    if callback.status ==s "" then set else set_result callback.status set

unfoldable pub set_agent : Option Agent → Attempt → Attempt
set_agent agent a = record a { agent = agent }

-- `DistributeAgent`; without an agent it does not get further than the state, or panics.
unfoldable pub distribute_agent : Agent → World → World
distribute_agent agent w =
    if w.attempt.state ==s member_state_wait_agent
    then emit (Effect.distributed agent)
        (record w { attempt = record w.attempt { agent = some agent } })
    else w

unfoldable pub team_updated_at : Attempt → ℤ
team_updated_at a = elim a.agent [
  | some g ↦ g.team_updated_at
  | none ↦ elim a.member.team_updated_at [ none ↦ pos 0 | some at ↦ at ]
]

unfoldable pub flip_resource : AttemptFlipResource → Attempt → Attempt
flip_resource res a = record a {
  member = record a.member {
    resource_id = res.resource_id;
    resource_updated_at = res.resource_updated_at;
    gateway_updated_at = res.gateway_updated_at;
    member_call_id = res.call_id;
  };
}

-- `Display` keeps what it takes from the resource, by the choice `pick` of the resource's numbers.
unfoldable pub display_of_resource : ℕ → Attempt → Attempt × String
unfolding get_display
display_of_resource pick a = elim a.resource [
  | none ↦ (a, "")
  | some r ↦
      let d = get_display pick r in
      (record a { communication = record a.communication { display = some d } }, d)
]

unfoldable pub display : ℕ → Attempt → Attempt × String
unfolding display_of_resource
display pick a = elim a.communication.display [
  | none ↦ display_of_resource pick a
  | some d ↦ if d ==s "" then display_of_resource pick a else (a, d)
]

unfoldable pub member_id : Attempt → Option ℤ
member_id a = elim a.member.member_id [
  | none ↦ none
  | some i ↦ if i ==ℤ pos 0 then none else some i
]

unfoldable pub is_barred : Attempt → Bool
is_barred a = elim a.member.list_communication_id [ none ↦ false | some i ↦ true ]

unfoldable pub attempt_is_timeout : Attempt → Bool
unfolding is_timeout
attempt_is_timeout a = is_timeout a.member

-- `SetCancel` closes the channel `cancel` once.
unfoldable pub set_cancel : Attempt → Option Attempt
set_cancel a =
    if a.canceled
    then some a
    else if a.cancel_closed
    then none
    else some (record a { canceled = true; cancel_closed = true })

-- The transfer of a chat to another attempt: reserved, aimed, and then released or completed.
unfoldable pub reserve_im_transfer : Attempt → Attempt × Bool
reserve_im_transfer a =
    if a.im_transfer_pending || a.im_transferred_closed
    then (a, false)
    else (record a { im_transfer_pending = true }, true)

unfoldable pub set_im_transfer_to : ℤ → Attempt → Attempt
set_im_transfer_to to_id a = record a { im_transfer_to = to_id }

unfoldable pub release_im_transfer : ℤ → Attempt → Attempt
release_im_transfer to_id a =
    if (a.im_transfer_to ==ℤ pos 0) || (a.im_transfer_to ==ℤ to_id)
    then record a { im_transfer_pending = false; im_transfer_to = pos 0 }
    else a

-- `close` of the channel is under the test that it is open.
unfoldable pub complete_im_transfer : Attempt → Attempt
complete_im_transfer a =
    if a.im_transferred_closed
    then a
    else record a { im_transfer_pending = false; im_transferred_closed = true }

-- `ReportingConfig`, with the zero value for no attempt.
pub record ReportingConfig : Type 0 where
  pub wait_between : ℕ
  pub max_attempts : ℕ
  pub per_numbers : Bool

unfoldable pub reporting_config : Option Attempt → ReportingConfig
reporting_config none = record { wait_between = 0; max_attempts = 0; per_numbers = false }
reporting_config (some a) = record {
  wait_between = a.wait_between;
  max_attempts = a.max_attempts;
  per_numbers = a.per_numbers;
}

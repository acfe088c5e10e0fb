-- ===== src/CallManager/Call/Events.antt =====
-- What the events of call_manager/call_events.go change of a call, and what they never change again.
use call_center.Prelude.{◌≡◌, ◌⊎◌, [], ◌∷◌, ◌++◌, false, arith}
use call_center.Prelude.Int.{ℤ, pos, ◌==ℤ◌}
use call_center.Model.Call.{
  CallEvent, ringing, progress, active, hold, bridge, hangup, amd, unknown,
}
use call_center.CallManager.State.{Call, World, OnDone}
use call_center.CallManager.Call.{handle_call_action}

-- The state changes together with what is sent on the channel.
abbrev pub Announced : World → World → Type 0
Announced w u =
    ((u.call.state ≡ w.call.state) × (u.call.ch_state ≡ w.call.ch_state))
    ⊎ (u.call.ch_state ≡ w.call.ch_state ++ u.call.state ∷ [])

-- An event that is handled leaves state and channel alone, or sends the new state last.
pub handle_call_action-Announced :
    (now : ℤ) (e : CallEvent) (w : World) → OnDone (Announced w) (handle_call_action now e w)
unfolding handle_call_action
handle_call_action-Announced now (ringing e) w = ground arith
handle_call_action-Announced now (progress e) w = ground arith
handle_call_action-Announced now (active e) w = ground arith
handle_call_action-Announced now (bridge e) w = ground arith
handle_call_action-Announced now (hold e) w = ground arith
handle_call_action-Announced now (hangup e) w = ground arith
handle_call_action-Announced now (amd e) w = ground arith
handle_call_action-Announced now unknown w = ground arith

-- The time of the answer, and all that the end of the call has set.
pub record SameAnswer (c d : Call) : Type 0 where
  pub accepted : d.accept_at ≡ c.accept_at

pub record SameEnd (c d : Call) : Type 0 where
  pub ended : d.hangup_at ≡ c.hangup_at
  pub event : d.hangup_event ≡ c.hangup_event
  pub closed : d.hangup_closed ≡ c.hangup_closed
  pub to : d.transfer_to ≡ c.transfer_to
  pub from : d.transfer_from ≡ c.transfer_from
  pub agent : d.transfer_to_agent_id ≡ c.transfer_to_agent_id
  pub from_attempt : d.transfer_from_attempt_id ≡ c.transfer_from_attempt_id
  pub to_attempt : d.transfer_to_attempt_id ≡ c.transfer_to_attempt_id
  pub reported : d.reporting_at ≡ c.reporting_at
  pub vars : d.variables ≡ c.variables

-- Once a call has a time of its answer, no event that is handled to its end changes the time. Once it has
-- a time of its end, none changes the time, the event with its cause, the transfers with their agent
-- and attempts, the time of the report and the variables.
pub handle_call_action-first :
    (now : ℤ) (e : CallEvent) (w : World)
    → OnDone
        (λ u.
          ((w.call.accept_at ==ℤ pos 0) ≡ false → SameAnswer w.call u.call)
          × ((w.call.hangup_at ==ℤ pos 0) ≡ false → SameEnd w.call u.call))
        (handle_call_action now e w)
unfolding handle_call_action
handle_call_action-first now (ringing e) w = ground arith
handle_call_action-first now (progress e) w = ground arith
handle_call_action-first now (active e) w = ground arith
handle_call_action-first now (bridge e) w = ground arith
handle_call_action-first now (hold e) w = ground arith
handle_call_action-first now (hangup e) w = ground arith
handle_call_action-first now (amd e) w = ground arith
handle_call_action-first now unknown w = ground arith

-- ===== src/CallManager/Call/Hangup.antt =====
-- `Hangup` and `WaitForHangup` of call_manager/call.go.
use call_center.Prelude.{
  ◌<◌, ◌≡◌, ◌≢◌, refl, String, Option, none, some, ◌∷◌, Bool, true, false, if◌then◌else◌, arith,
  length, ◌↔◌, ◌==s◌, ==s_iff,
}
use call_center.Prelude.Int.{ℤ, pos, ==ℤ_iff}
use call_center.Model.{AppError}
use call_center.Model.Maps.{StringMap}
use call_center.Model.Call.{CallRequest}
use call_center.CallManager.State.{
  Call, CallState, CallDirection, Command, Effect, Fault, World, done, fault, ch_state_capacity,
  before, Returns,
}
use call_center.CallManager.Call.{
  hangup_call, send_hangup, invite, invite_result, hangup_cause, wait_for_hangup_returns,
  should_mark_as_missed, cause_normal_clearing, cause_lose_race, cause_originator_cancel,
}

-- A call as `NewCall` makes it, that nobody has cancelled.
pub record IsFresh (c : Call) : Type 0 where
  pub state_new : c.state ≡ CallState.new
  pub open_channel : c.hangup_closed ≡ false
  pub running : c.hangup_at ≡ pos 0

abbrev cancelled : World → String → World
cancelled w cause = record w { call = record w.call { cancel = cause; hangup_closed = true } }

-- How a call has ended that FreeSWITCH did not end.
pub record EndedWith (w u : World) (sent : Command) (now : ℤ) (cause : String) : Type 0 where
  pub told : u.effects ≡ Effect.remove_from_cache w.call.id ∷ Effect.command sent ∷ w.effects
  pub over : u.call.state ≡ CallState.hangup
  pub stamped : u.call.hangup_at ≡ now
  pub caused : hangup_cause u.call ≡ cause
  pub released : wait_for_hangup_returns u.call ≡ true

module _ (api : Command → Option AppError) where
  -- `Hangup` of a call that was not invited sends nothing: it notes the cause and closes the channel.
  hangup_call_fresh :
      (now : ℤ) (cause : String) (reporting : Bool) (vars : StringMap) (w : World)
      → IsFresh w.call
      → hangup_call api now cause reporting vars w ≡ done none (cancelled w cause)
  unfolding hangup_call
  hangup_call_fresh now cause reporting vars w f = ground arith

  -- Its waiters return, and a second `Hangup` of it closes a closed channel, which panics.
  pub hangup_call_twice :
      (now : ℤ) (cause other : String) (reporting : Bool) (vars : StringMap) (w : World)
      → IsFresh w.call
      → (u : World) × (hangup_call api now cause reporting vars w ≡ done none u)
        × (u.effects ≡ w.effects)
        × (wait_for_hangup_returns u.call ≡ true)
        × (hangup_call api now other reporting vars u ≡ fault Fault.close_of_closed_channel)
  unfolding wait_for_hangup_returns hangup_call
  hangup_call_twice now cause other reporting vars w f =
      (cancelled w cause, ground arith, refl, ground arith, ground arith)

  -- The invitation does not look at the cancellation: where a cancelled outbound call is invited
  -- after all and that fails, the end of the call closes the closed channel, which panics.
  pub hangup_call-invite_fault :
      (now : ℤ) (cause reason : String) (reporting : Bool) (vars : StringMap) (code : ℤ)
      (err : AppError) (r : CallRequest) (w : World)
      → IsFresh w.call
      → w.call.direction ≡ CallDirection.outbound
      → w.call.call_request ≡ some r
      → (u v : World) × (hangup_call api now cause reporting vars w ≡ done none u)
        × (invite u ≡ done none v)
        × (invite_result now reason code (some err) v ≡ fault Fault.close_of_closed_channel)
  unfolding invite invite_result
  hangup_call-invite_fault now cause reason reporting vars code err r w f d q = (
    cancelled w cause,
    record {
      call = record w.call { cancel = cause; hangup_closed = true; state = CallState.invite };
      effects = Effect.originate r ∷ Effect.save_to_cache w.call.id ∷ w.effects;
    },
    hangup_call_fresh now cause reporting vars w f,
    ground arith,
    ground arith,
  )

  -- The cause that is sent: the empty one stands for a normal clearing.
  abbrev pub sent_cause : String → String
  sent_cause cause = if cause ==s "" then cause_normal_clearing else cause

  hangup_call_sends :
      (now : ℤ) (cause : String) (reporting : Bool) (vars : StringMap) (w : World)
      → before w.call.state CallState.invite ≡ false
      → hangup_call api now cause reporting vars w
        ≡ send_hangup api now (sent_cause cause) reporting vars w
  unfolding hangup_call
  hangup_call_sends now cause reporting vars w h = rw h refl

  hangup_cause-none : (c : Call) → c.hangup_event ≡ none → hangup_cause c ≡ ""
  unfolding hangup_cause
  hangup_cause-none c h = ground arith

  send_hangup_refused :
      (now : ℤ) (cause : String) (reporting : Bool) (vars : StringMap) (e : AppError) (w : World)
      → now ≢ pos 0
      → w.call.hangup_at ≡ pos 0
      → w.call.hangup_event ≡ none
      → w.call.hangup_closed ≡ false
      → length w.call.ch_state < ch_state_capacity
      → let sent = Command.hangup_call w.call.id cause reporting vars in
        api sent ≡ some e
        → Returns
            (λ err u. (err ≡ some e) × EndedWith w u sent now cause)
            (send_hangup api now cause reporting vars w)
  unfolding send_hangup hangup_cause wait_for_hangup_returns
  send_hangup_refused now cause reporting vars e w n a h o r x =
      ground
        (arith, ==ℤ_iff now (pos 0), hangup_cause-none w.call h, ==s_iff (hangup_cause w.call) "")

  -- `Hangup` of an invited call sends one command; if FreeSWITCH takes it, nothing else changes.
  pub hangup_call_taken :
      (now : ℤ) (cause : String) (reporting : Bool) (vars : StringMap) (w : World)
      → before w.call.state CallState.invite ≡ false
      → let sent = Command.hangup_call w.call.id (sent_cause cause) reporting vars in
        api sent ≡ none
        → hangup_call api now cause reporting vars w
          ≡ done none (record w { effects = Effect.command sent ∷ w.effects })
  unfolding send_hangup
  hangup_call_taken now cause reporting vars w i x =
      rw (hangup_call_sends now cause reporting vars w i) (ground arith)

  -- If FreeSWITCH refuses the command for an invited call that has not ended, the call ends here
  -- with the cause that was sent, leaves the cache, its waiters return, and the error is returned.
  -- That is so where the channel of states has a place and the clock is not at 0.
  pub hangup_call_refused :
      (now : ℤ) (cause : String) (reporting : Bool) (vars : StringMap) (e : AppError) (w : World)
      → now ≢ pos 0
      → before w.call.state CallState.invite ≡ false
      → w.call.hangup_at ≡ pos 0
      → w.call.hangup_event ≡ none
      → w.call.hangup_closed ≡ false
      → length w.call.ch_state < ch_state_capacity
      → let sent = Command.hangup_call w.call.id (sent_cause cause) reporting vars in
        api sent ≡ some e
        → Returns
            (λ err u. (err ≡ some e) × EndedWith w u sent now (sent_cause cause))
            (hangup_call api now cause reporting vars w)
  hangup_call_refused now cause reporting vars e w n i a h o r x =
      rw (hangup_call_sends now cause reporting vars w i)
        (send_hangup_refused now (sent_cause cause) reporting vars e w n a h o r x)

-- A call counts as missed exactly if it ended with a cause that is neither the loss of a race nor
-- the originator's cancel; a call that is not there counts as missed.
pub should_mark_as_missed_iff :
    (c : Call)
    → (should_mark_as_missed (some c) ≡ true) ↔ (
        (hangup_cause c ≢ "")
        × (hangup_cause c ≢ cause_lose_race)
        × (hangup_cause c ≢ cause_originator_cancel))
unfolding should_mark_as_missed
should_mark_as_missed_iff c = ground (
  arith,
  ==s_iff (hangup_cause c) "",
  ==s_iff (hangup_cause c) cause_lose_race,
  ==s_iff (hangup_cause c) cause_originator_cancel,
)

-- ===== src/CallManager/Call/Safety.antt =====
-- The events of call_manager/call_events.go never make a call fault, but for a send on a full
-- channel, and they keep the books of the call.
use call_center.Prelude.{◌≤◌, ◌≡◌, ◌≢◌, [], ◌∷◌, false, not, arith, length, length-append}
use call_center.Prelude.Int.{ℤ, pos, ◌==ℤ◌, ==ℤ_iff}
use call_center.Model.Call.{
  CallAction, CallActionRinging, CallActionBridge, CallActionHangup, CallActionAmd, CallEvent,
  ringing, progress, active, hold, bridge, hangup, amd, unknown,
}
use call_center.CallManager.State.{
  Call, CallState, close_of_closed_channel, nil_pointer, blocked_send, World, Outcome, done, fault,
  ch_state_capacity,
}
use call_center.CallManager.Call.{
  is_none, set_ringing, set_progress, set_active, set_bridge, set_amd, set_hold, set_hangup,
  handle_call_action,
}

-- The channel of the end is closed exactly when the end is stamped, the channel of states is within
-- its capacity, and the request is there.
pub record IsSound (c : Call) : Type 0 where
  pub closed_iff : c.hangup_closed ≡ not (c.hangup_at ==ℤ pos 0)
  pub queued : length c.ch_state ≤ ch_state_capacity
  pub requested : is_none c.call_request ≡ false

-- How a method may end on a call: soundly, or blocked on a full channel of states.
abbrev pub SafeOutcome {ℓ} : {A : Type ℓ} → World → Outcome A → Type 0
SafeOutcome w (done a w') = IsSound w'.call
SafeOutcome w (fault blocked_send) = length w.call.ch_state ≡ ch_state_capacity
SafeOutcome w (fault close_of_closed_channel) = ⊥
SafeOutcome w (fault nil_pointer) = ⊥

module _ (w : World) (v : IsSound w.call) where
  safe_ringing : (e : CallActionRinging) → SafeOutcome w (set_ringing e w)
  unfolding set_ringing
  safe_ringing e = ground (arith, length-append w.call.ch_state (CallState.ringing ∷ []))

  safe_progress : (e : CallAction) → SafeOutcome w (set_progress e w)
  unfolding set_progress
  safe_progress e = ground arith

  safe_active : (e : CallAction) → SafeOutcome w (set_active e w)
  unfolding set_active
  safe_active e = ground (arith, length-append w.call.ch_state (CallState.accept ∷ []))

  safe_bridge : (e : CallActionBridge) → SafeOutcome w (set_bridge e w)
  unfolding set_bridge
  safe_bridge e = ground (arith, length-append w.call.ch_state (CallState.bridge ∷ []))

  safe_hold : (e : CallAction) → SafeOutcome w (set_hold e w)
  unfolding set_hold
  safe_hold e = ground (arith, length-append w.call.ch_state (CallState.hold ∷ []))

  safe_amd : (e : CallActionAmd) → SafeOutcome w (set_amd e w)
  unfolding set_amd
  safe_amd e = ground (arith, length-append w.call.ch_state (CallState.detect_amd ∷ []))

  safe_hangup :
      (now : ℤ) (e : CallActionHangup)
      → (now ==ℤ pos 0) ≡ false
      → SafeOutcome w (set_hangup now e w)
  unfolding set_hangup
  safe_hangup now e h = ground (arith, length-append w.call.ch_state (CallState.hangup ∷ []))

-- No event makes a sound call panic, at a clock that is not at 0: the call is sound after it, or the
-- event's send waits on a channel with all its places taken.
pub handle_call_action-IsSound :
    (now : ℤ) (e : CallEvent) (w : World)
    → now ≢ pos 0
    → IsSound w.call
    → SafeOutcome w (handle_call_action now e w)
unfolding handle_call_action
handle_call_action-IsSound now (ringing e) w h v = safe_ringing w v e
handle_call_action-IsSound now (progress e) w h v = safe_progress w v e
handle_call_action-IsSound now (active e) w h v = safe_active w v e
handle_call_action-IsSound now (bridge e) w h v = safe_bridge w v e
handle_call_action-IsSound now (hold e) w h v = safe_hold w v e
handle_call_action-IsSound now (hangup e) w h v =
    safe_hangup w v now e (ground (arith, ==ℤ_iff now (pos 0)))
handle_call_action-IsSound now (amd e) w h v = safe_amd w v e
handle_call_action-IsSound now unknown w h v = v

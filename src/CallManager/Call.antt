-- ===== src/CallManager/Call.antt =====
-- call_manager/call.go: the methods by which an event changes a call, and the ends of a call.
pub mod Media
pub mod Stats
pub mod Safety
pub mod Timing
pub mod Events
pub mod Hangup
pub mod Ring
mod Tests
use call_center.Prelude.{
  ℕ, String, Option, none, some, List, [], ◌∷◌, ◌++◌, Bool, true, false, not, ◌&&◌, ◌||◌,
  if◌then◌else◌, ◌==s◌, ltb, length, string_key,
}
use call_center.Prelude.Int.{ℤ, pos, ◌==ℤ◌, ltb_ℤ}
use call_center.Prelude.StringMap.{insert}
use call_center.Model.{AppError, new_app_error}
use call_center.Model.Maps.{StringMap}
use call_center.Model.Call.{
  CallRequest, CallAction, CallActionInfo, CallActionRinging, CallActionBridge, CallActionHangup,
  CallActionAmd, AmdAiResult, CallEvent, ringing, progress, active, hold, bridge, hangup, amd,
  unknown,
}
use call_center.CallManager.State.{
  Call, CallState, CallDirection, Timer, Command, Effect, Fault, World, Outcome, M, ◌>>=◌, ◌>>◌,
  pure, fails, self, modify, emit, skip, before, ch_state_capacity,
}

-- The text constants of model/call.go.
abbrev pub cause_no_answer : String
cause_no_answer = "NO_ANSWER"

abbrev pub cause_normal_clearing : String
cause_normal_clearing = "NORMAL_CLEARING"

abbrev pub cause_originator_cancel : String
cause_originator_cancel = "ORIGINATOR_CANCEL"

abbrev pub cause_lose_race : String
cause_lose_race = "LOSE_RACE"

abbrev no_action : CallAction
no_action = record { id = ""; app_id = ""; domain_id = pos 0; timestamp = pos 0; event = "" }

abbrev no_info : CallActionInfo
no_info = record {
  gateway_id = none;
  user_id = none;
  direction = "";
  destination = "";
  from = none;
  to = none;
  parent_id = none;
  payload = none;
}

-- A call with every field at Go's zero value, but for what its constructors give.
unfoldable pub zero_call : Option CallRequest → String → CallDirection → String → Call
zero_call request api_name direction id = record {
  call_request = request;
  api_name = api_name;
  direction = direction;
  id = id;
  hangup_closed = false;
  state = CallState.new;
  cancel = "";
  ch_state = [];
  info = no_info;
  hangup_event = none;
  action = no_action;
  bridged_id = none;
  ringing_at = pos 0;
  accept_at = pos 0;
  bridge_at = pos 0;
  hangup_at = pos 0;
  reporting_at = pos 0;
  progress_at = pos 0;
  transfer_to = none;
  transfer_from = none;
  transfer_to_agent_id = none;
  transfer_from_attempt_id = none;
  transfer_to_attempt_id = none;
  queue_id = none;
  amd_result = "";
  amd_cause = "";
  amd_ai_result = record { result = ""; error = "" };
  variables = [];
  ring_timeout = none;
}

abbrev pub or_empty : Option StringMap → StringMap
or_empty none = []
or_empty (some m) = m

abbrev pub or_string : Option String → String → String
or_string none d = d
or_string (some s) d = s

-- `NewCall`. `uuid` is what `model.NewUuid` would give; the manager's node and proxy are arguments.
unfoldable pub new_call : String → String → String → CallDirection → CallRequest → String → Call
unfolding zero_call
new_call uuid node_id proxy direction request api_name =
    let id = or_string request.id uuid in
    let vars = insert "sip_copy_custom_headers" "false" (
      insert "sip_route_uri" proxy
        (insert "cc_app_id" node_id (insert "origination_uuid" id (or_empty request.variables)))) in
    zero_call (some (record request { variables = some vars })) api_name direction id

-- `setState`: the assignment, then the send on `chState`.
unfoldable pub set_state : CallState → M (Unit {0})
set_state s = do
  modify (λ c. record c { state = s })
  c ← self
  if ltb (length c.ch_state) ch_state_capacity
      then modify (λ c. record c { ch_state = c.ch_state ++ s ∷ [] })
      else fails Fault.blocked_send

-- `<-call.State()`, by the code that waits on the call.
unfoldable pub receive_state : M (Option CallState)
receive_state w = elim w.call.ch_state [
  | [] ↦ pure none w
  | s ∷ rest ↦ pure (some s) (record w { call = record w.call { ch_state = rest } })
]

abbrev pub stop_timer : Option Timer → Option Timer
stop_timer none = none
stop_timer (some t) = some (record t { running = false })

abbrev pub or_int : Option ℤ → ℤ → ℤ
or_int none d = d
or_int (some z) d = z

abbrev pub is_none : {A : Type 0} → Option A → Bool
is_none none = true
is_none (some _) = false

-- The field `Timeout` through the pointer `callRequest`.
abbrev pub request_timeout : M ℕ
request_timeout w = elim w.call.call_request [
  | none ↦ fails Fault.nil_pointer w
  | some r ↦ pure r.timeout w
]

-- `time.AfterFunc` with the timeout of the request, if it has one.
arm_ring_timer : M (Unit {0})
arm_ring_timer = do
  t ← request_timeout
  if ltb 0 t
      then modify (λ c. record c { ring_timeout = some (record { running = true; seconds = t }) })
      else skip

unfoldable pub set_ringing : CallActionRinging → M (Unit {0})
unfolding set_state arm_ring_timer
set_ringing e = do
  modify (λ c. record c { info = e.info; ringing_at = e.action.timestamp })
  c ← self
  if is_none c.ring_timeout then arm_ring_timer else skip
  set_state CallState.ringing

-- `ringTimeout.Reset`, for a request with a timeout.
reset_ring_timer : Timer → M (Unit {0})
reset_ring_timer timer = do
  t ← request_timeout
  if ltb 0 t
      then modify (λ c. record c { ring_timeout = some (record { running = true; seconds = t }) })
      else skip

unfoldable pub set_progress : CallAction → M (Unit {0})
unfolding reset_ring_timer
set_progress e = do
  c ← self
  if c.progress_at ==ℤ pos 0
      then elim c.ring_timeout [ none ↦ skip | some timer ↦ reset_ring_timer timer ]
      else skip
  modify (λ c. record c {
    progress_at = if c.progress_at ==ℤ pos 0 then e.timestamp else c.progress_at;
  })

unfoldable pub set_active : CallAction → M (Unit {0})
unfolding set_state
set_active e = do
  c ← self
  if c.accept_at ==ℤ pos 0
      then (do
        modify (λ c. record c { accept_at = e.timestamp; ring_timeout = stop_timer c.ring_timeout })
        set_state CallState.accept)
      else skip

unfoldable pub set_bridge : CallActionBridge → M (Unit {0})
unfolding set_state
set_bridge e = do
  modify (λ c. record c {
    bridge_at = e.action.timestamp;
    bridged_id = some e.bridged_id;
    ring_timeout = stop_timer c.ring_timeout;
  })
  set_state CallState.bridge

unfoldable pub set_amd : CallActionAmd → M (Unit {0})
unfolding set_state
set_amd e = do
  modify (λ c. record c {
    amd_result = e.result;
    amd_cause = e.cause;
    amd_ai_result = e.amd_ai_result;
  })
  set_state CallState.detect_amd

unfoldable pub set_hold : CallAction → M (Unit {0})
unfolding set_state
set_hold e = set_state CallState.hold

-- `close(call.hangupCh)`.
unfoldable pub close_hangup : M (Unit {0})
close_hangup = do
  c ← self
  if c.hangup_closed
      then fails Fault.close_of_closed_channel
      else modify (λ c. record c { hangup_closed = true })

-- `now` is what `model.GetMillis` gives.
unfoldable pub set_hangup : ℤ → CallActionHangup → M (Unit {0})
unfolding set_state close_hangup
set_hangup now e = do
  c ← self
  if c.hangup_at ==ℤ pos 0
      then (do
        modify (λ c. record c { hangup_event = some e })
        emit (Effect.remove_from_cache c.id)
        modify (λ c. record c {
          ring_timeout = stop_timer c.ring_timeout;
          hangup_at = if e.action.timestamp ==ℤ pos 0 then now else e.action.timestamp;
          reporting_at = or_int e.reporting_at c.reporting_at;
          transfer_from = e.transfer_from;
          transfer_from_attempt_id = e.transfer_from_attempt;
          transfer_to = e.transfer_to;
          transfer_to_agent_id = e.transfer_to_agent;
          transfer_to_attempt_id = e.transfer_to_attempt;
          variables = e.variables;
        })
        close_hangup
        set_state CallState.hangup)
      else skip

unfoldable pub hangup_cause : Call → String
hangup_cause c = elim c.hangup_event [ none ↦ "" | some e ↦ e.cause ]

unfoldable pub hangup_cause_code : Call → ℤ
hangup_cause_code c = elim c.hangup_event [ none ↦ pos 0 | some e ↦ or_int e.sip_code (pos 0) ]

unfoldable pub should_mark_as_missed : Option Call → Bool
unfolding hangup_cause
should_mark_as_missed none = true
should_mark_as_missed (some c) = not (
    hangup_cause c ==s ""
    || hangup_cause c ==s cause_lose_race
    || hangup_cause c ==s cause_originator_cancel)

-- `Err`: a SIP code that is neither 0 nor 200.
unfoldable pub call_err : Call → Option AppError
unfolding hangup_cause_code
call_err c =
    if not (hangup_cause_code c ==ℤ pos 0) && not (hangup_cause_code c ==ℤ pos 200)
    then some (new_app_error "Call" "call.app.error" "error" (pos 500))
    else none

-- Whether `WaitForHangup` returns: it waits for the channel only on a call with no error or cause.
unfoldable pub wait_for_hangup_returns : Call → Bool
unfolding call_err hangup_cause
wait_for_hangup_returns c =
    if is_none (call_err c) && hangup_cause c ==s "" then c.hangup_closed else true

abbrev pub err_invite_direction : AppError
err_invite_direction = record {
  id = "call.invite.validate.direction";
  message = "call.invite.validate.direction";
  detailed_error = "";
  status_code = pos 400;
  place = "Call";
}

abbrev pub is_outbound : CallDirection → Bool
is_outbound CallDirection.outbound = true
is_outbound CallDirection.inbound = false

-- The goroutine of `Invite` starts with the request of the call.
unfoldable pub invite : M (Option AppError)
invite = do
  c ← self
  emit (Effect.save_to_cache c.id)
  if is_outbound c.direction
      then (do
        modify (λ c. record c { state = CallState.invite })
        elim c.call_request [ none ↦ fails Fault.nil_pointer | some r ↦ emit (Effect.originate r) ]
        pure none)
      else pure (some err_invite_direction)

abbrev bare_hangup : CallAction → String → Option ℤ → CallActionHangup
bare_hangup action cause code = record {
  action = action;
  cause = cause;
  sip_code = code;
  origin_success = none;
  reporting_at = none;
  transfer_to = none;
  transfer_from = none;
  transfer_to_agent = none;
  transfer_from_attempt = none;
  transfer_to_attempt = none;
  variables = [];
}

-- What the goroutine does when `api.NewCall` has returned a cause, a code and perhaps an error.
unfoldable pub invite_result : ℤ → String → ℤ → Option AppError → M (Unit {0})
unfolding set_hangup
invite_result now cause code err = do
  c ← self
  if is_none err then skip else set_hangup now (bare_hangup c.action cause (some code))

abbrev is_new : CallState → Bool
is_new CallState.new = true
is_new _ = false

module _ (api : Command → Option AppError) where
  -- The part of `Hangup` for a call that was invited.
  send_hangup : ℤ → String → Bool → StringMap → M (Option AppError)
  unfolding set_hangup hangup_cause
  send_hangup now cause reporting vars = do
    c ← self
    emit (Effect.command (Command.hangup_call c.id cause reporting vars))
    let err = api (Command.hangup_call c.id cause reporting vars)
    if not (is_none err) && hangup_cause c ==s ""
        then set_hangup now (
            bare_hangup (record no_action { id = c.id; timestamp = now; event = "hangup" }) cause
              none)
        else skip
    pure err

  unfoldable pub hangup_call : ℤ → String → Bool → StringMap → M (Option AppError)
  unfolding send_hangup close_hangup
  hangup_call now cause reporting vars = do
    c ← self
    if before c.state CallState.invite
        then (do
          modify (λ c. record c { cancel = cause })
          d ← self
          if is_new d.state then close_hangup else skip
          pure none)
        else send_hangup now (if cause ==s "" then cause_normal_clearing else cause) reporting vars

  -- The function that the ring timer runs, when it fires.
  unfoldable pub ring_timer_fires : ℤ → M (Unit {0})
  unfolding hangup_call
  ring_timer_fires now = do
    c ← self
    elim c.ring_timeout [
      | none ↦ skip
      | some timer ↦
          if timer.running
          then (do
            modify (λ c. record c { ring_timeout = stop_timer c.ring_timeout })
            if before c.state CallState.accept
                then (do _ ← hangup_call now cause_no_answer false []; skip)
                else skip)
          else skip
    ]

-- `handleCallAction` for a call that the cache has; an event of another kind is logged.
unfoldable pub handle_call_action : ℤ → CallEvent → M (Unit {0})
unfolding set_ringing set_progress set_active set_bridge set_hold set_hangup set_amd
handle_call_action now (ringing e) = set_ringing e
handle_call_action now (progress e) = set_progress e
handle_call_action now (active e) = set_active e
handle_call_action now (bridge e) = set_bridge e
handle_call_action now (hold e) = set_hold e
handle_call_action now (hangup e) = set_hangup now e
handle_call_action now (amd e) = set_amd e
handle_call_action now unknown = skip

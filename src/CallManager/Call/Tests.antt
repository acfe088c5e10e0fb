-- ===== src/CallManager/Call/Tests.antt =====
-- The theorems on calls, at a call as `NewCall` makes it.
use call_center.Prelude.{
  ℕ, suc, ap, ◌+◌, ◌≤◌, ◌≡◌, ◌≢◌, refl, Option, none, some, [], ◌∷◌, true, false, ◌↔◌, arith,
}
use call_center.Prelude.Int.{pos, pos_part, ◌==ℤ◌}
use call_center.Prelude.StringMap
use call_center.Model.{AppError}
use call_center.Model.Call.{
  CallRequest, CallAction, CallActionRinging, CallActionHangup, ringing, active, hangup,
}
use call_center.CallManager.State.{
  Call, CallState, CallDirection, Command, Effect, Fault, World, done, fault, Returns, OnDone,
}
use call_center.CallManager.Call.{
  new_call, zero_call, hangup_call, invite, invite_result, handle_call_action,
  wait_for_hangup_returns, no_info, no_action, bare_hangup, should_mark_as_missed, hangup_cause,
}
use call_center.CallManager.Call.Safety.{IsSound, SafeOutcome, handle_call_action-IsSound}
use call_center.CallManager.Call.Events.{
  Announced, SameAnswer, SameEnd, handle_call_action-first, handle_call_action-Announced,
}
use call_center.CallManager.Call.Timing.{
  wait_seconds, bill_seconds, duration_seconds, wait-bill-duration,
}
use call_center.CallManager.Call.Hangup.{
  IsFresh, EndedWith, hangup_call_twice, hangup_call-invite_fault, hangup_call_taken,
  hangup_call_refused, should_mark_as_missed_iff,
}
use call_center.CallManager.Call.Ring.{
  rings_then_answers, answers_then_rings, rings_then_answers_lem, answers_then_rings_hangs_up,
  no_answer,
}

abbrev request : CallRequest
request = record {
  id = some "call-1";
  endpoints = "sofia/gateway/1" ∷ [];
  strategy = 0;
  destination = "100";
  variables = none;
  timeout = 30;
  caller_name = "";
  caller_number = "";
  dialplan = "";
  context = "";
  applications = [];
  check_parent_id = "";
  origination_number = "";
}

-- The world before anything is done with a new outbound call.
start : World
unfolding new_call zero_call StringMap.insert
start = record {
  call = new_call "uuid" "node" "sip:proxy" CallDirection.outbound request "fs-1";
  effects = [];
}

start-IsFresh : IsFresh start.call
unfolding start
start-IsFresh = record { state_new = refl; open_channel = refl; running = refl }

start-IsSound : IsSound start.call
unfolding start
start-IsSound = record { closed_iff = refl; queued = omega arith; requested = refl }

abbrev accepts : Command → Option AppError
accepts c = none

abbrev refusal : AppError
refusal = record {
  id = "refused";
  message = "refused";
  detailed_error = "";
  status_code = pos 500;
  place = "Call";
}

abbrev refuses : Command → Option AppError
refuses c = some refusal

abbrev at : ℕ → CallAction
at t = record no_action { timestamp = pos t }

abbrev rings : CallActionRinging
rings = record { action = at 1000; info = no_info }

abbrev over : CallActionHangup
over = bare_hangup (at 9000) "NORMAL_CLEARING" none

pos_ne : (n : ℕ) → pos (suc n) ≢ pos 0
pos_ne n e = absurd (omega (arith, ap pos_part e))

handle_call_action-IsSound_example :
    SafeOutcome start (handle_call_action (pos 5000) (hangup over) start)
handle_call_action-IsSound_example =
    handle_call_action-IsSound (pos 5000) (hangup over) start (pos_ne 4999) start-IsSound

hangup_call_twice_example :
    (u : World) × (hangup_call accepts (pos 5000) "NO_ANSWER" false [] start ≡ done none u)
    × (u.effects ≡ start.effects)
    × (wait_for_hangup_returns u.call ≡ true)
    × (hangup_call accepts (pos 5000) "" false [] u ≡ fault Fault.close_of_closed_channel)
hangup_call_twice_example =
    hangup_call_twice accepts (pos 5000) "NO_ANSWER" "" false [] start start-IsFresh

hangup_call-invite_fault_example :
    (u v : World) × (hangup_call accepts (pos 5000) "" false [] start ≡ done none u)
    × (invite u ≡ done none v)
    × (invite_result (pos 5000) "" (pos 486) (some refusal) v ≡ fault Fault.close_of_closed_channel)
unfolding start
hangup_call-invite_fault_example =
    hangup_call-invite_fault accepts (pos 5000) "" "" false [] (pos 486) refusal _ start
      start-IsFresh refl refl

-- The call after its invitation.
invited : World
unfolding start invite
invited = record { call = record start.call { state = CallState.invite }; effects = [] }

hangup_call_taken_example :
    hangup_call accepts (pos 5000) "" false [] invited
    ≡ done none (record invited {
      effects = Effect.command (Command.hangup_call "call-1" "NORMAL_CLEARING" false []) ∷ [];
    })
unfolding invited
hangup_call_taken_example = hangup_call_taken accepts (pos 5000) "" false [] invited refl refl

hangup_call_refused_example :
    Returns
      (λ err u.
        (err ≡ some refusal)
        × EndedWith invited u
            (Command.hangup_call invited.call.id "NORMAL_CLEARING" false [])
            (pos 5000)
            "NORMAL_CLEARING")
      (hangup_call refuses (pos 5000) "" false [] invited)
unfolding invited
hangup_call_refused_example =
    hangup_call_refused refuses (pos 5000) "" false [] refusal invited (pos_ne 4999) refl refl refl
      refl (omega arith) refl

rings_then_answers_example :
    Returns
      (λ _ u.
        (u.effects ≡ invited.effects)
        × (u.call.state ≡ CallState.accept)
        × (u.call.accept_at ≡ pos 3000))
      (rings_then_answers accepts (pos 40000) rings (at 3000) invited)
unfolding invited
rings_then_answers_example =
    rings_then_answers_lem accepts (pos 40000) rings (at 3000) _ invited refl refl (omega arith)

answers_then_rings_example :
    Returns
      (λ _ u.
        (u.effects ≡ Effect.command (no_answer accepts invited) ∷ invited.effects)
        × (u.call.accept_at ≡ pos 3000))
      (answers_then_rings accepts (pos 40000) rings (at 3000) invited)
unfolding invited
answers_then_rings_example =
    answers_then_rings_hangs_up accepts (pos 40000) rings (at 3000) _ invited refl refl refl
      (omega arith) (omega arith) refl

-- A call that was answered at 3 s and has ended at 9 s.
after_end : World
unfolding start
after_end = record start {
  call = record start.call { accept_at = pos 3000; hangup_at = pos 9000; hangup_closed = true };
}

handle_call_action-first_example :
    OnDone
      (λ u.
        ((after_end.call.accept_at ==ℤ pos 0) ≡ false → SameAnswer after_end.call u.call)
        × ((after_end.call.hangup_at ==ℤ pos 0) ≡ false → SameEnd after_end.call u.call))
      (handle_call_action (pos 9500) (active (at 9400)) after_end)
handle_call_action-first_example = handle_call_action-first (pos 9500) (active (at 9400)) after_end

handle_call_action-Announced_example :
    OnDone (Announced start) (handle_call_action (pos 5000) (ringing rings) start)
handle_call_action-Announced_example = handle_call_action-Announced (pos 5000) (ringing rings) start

-- A call that rang at 1 s, was bridged at 4.5 s and ended at 9 s.
ended : Call
unfolding start
ended = record start.call { ringing_at = pos 1000; bridge_at = pos 4500; hangup_at = pos 9000 }

wait-bill-duration_example :
    (w b d : ℕ) × (wait_seconds (pos 0) ended ≡ pos w)
    × (bill_seconds (pos 0) ended ≡ pos b)
    × (duration_seconds (pos 0) ended ≡ pos d)
    × (w + b ≤ d)
    × (d ≤ w + b + 1)
unfolding ended
wait-bill-duration_example = wait-bill-duration (pos 0) ended 1000 4500 9000 (record {
  rang = refl;
  bridged = refl;
  ended = refl;
  positive = omega arith;
  ring_first = omega arith;
  bridge_first = omega arith;
  in_range = omega arith;
})

should_mark_as_missed_iff_example : (should_mark_as_missed (some start.call) ≡ true) ↔ (
    (hangup_cause start.call ≢ "")
    × (hangup_cause start.call ≢ "LOSE_RACE")
    × (hangup_cause start.call ≢ "ORIGINATOR_CANCEL"))
should_mark_as_missed_iff_example = should_mark_as_missed_iff start.call

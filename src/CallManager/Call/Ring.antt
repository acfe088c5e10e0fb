-- ===== src/CallManager/Call/Ring.antt =====
-- The ring timer of call_manager/call.go: `setRinging` arms it, and an answer stops it. The manager
-- handles each event on a goroutine of its own, so that the events of a call may be handled in
-- another order than they came.
use call_center.Prelude.{◌<◌, ◌≡◌, Option, none, some, [], ◌∷◌, false, arith, length, length-append}
use call_center.Prelude.Int.{ℤ, pos}
use call_center.Model.{AppError}
use call_center.Model.Call.{CallRequest, CallAction, CallActionRinging}
use call_center.CallManager.State.{CallState, Command, Effect, World, M, ◌>>◌, Returns}
use call_center.CallManager.Call.{ring_timer_fires, set_ringing, set_active, cause_no_answer}

module _ (api : Command → Option AppError) where
  abbrev pub no_answer : World → Command
  no_answer w = Command.hangup_call w.call.id cause_no_answer false []

  -- A call that rings and is answered, in this order, and whose timer then fires.
  abbrev pub rings_then_answers : ℤ → CallActionRinging → CallAction → M (Unit {0})
  rings_then_answers now e f = do set_ringing e; set_active f; ring_timer_fires api now

  abbrev pub answers_then_rings : ℤ → CallActionRinging → CallAction → M (Unit {0})
  answers_then_rings now e f = do set_active f; set_ringing e; ring_timer_fires api now

  -- A call that rings and is then answered is not hung up by its timer.
  pub rings_then_answers_lem :
      (now : ℤ) (e : CallActionRinging) (f : CallAction) (r : CallRequest) (w : World)
      → w.call.accept_at ≡ pos 0
      → w.call.call_request ≡ some r
      → length w.call.ch_state < 4
      → Returns
          (λ _ u.
            (u.effects ≡ w.effects)
            × (u.call.state ≡ CallState.accept)
            × (u.call.accept_at ≡ f.timestamp))
          (rings_then_answers now e f w)
  unfolding set_ringing set_active ring_timer_fires
  rings_then_answers_lem now e f r w a q l =
      ground (arith, length-append w.call.ch_state (CallState.ringing ∷ []))

  -- Where the answer is handled before the ringing, the timer that the ringing arms is not stopped,
  -- and hangs up the answered call for want of an answer, if FreeSWITCH takes the command.
  pub answers_then_rings_hangs_up :
      (now : ℤ) (e : CallActionRinging) (f : CallAction) (r : CallRequest) (w : World)
      → w.call.accept_at ≡ pos 0
      → w.call.ring_timeout ≡ none
      → w.call.call_request ≡ some r
      → 0 < r.timeout
      → length w.call.ch_state < 4
      → api (no_answer w) ≡ none
      → Returns
          (λ _ u.
            (u.effects ≡ Effect.command (no_answer w) ∷ w.effects)
            × (u.call.accept_at ≡ f.timestamp))
          (answers_then_rings now e f w)
  unfolding set_ringing set_active ring_timer_fires
  answers_then_rings_hangs_up now e f r w a t q p l s =
      ground (arith, length-append w.call.ch_state (CallState.accept ∷ []))

-- ===== src/CallManager/Manager/Runs.antt =====
-- Sequences of the methods of call_manager/call_manager.go, in any order, on a manager that started
-- empty.
use call_center.Prelude.{ℕ, ◌≡◌, String, Option, some, List, [], ◌∷◌, arith, string_key, nat_key}
use call_center.Prelude.Int.{ℤ, pos}
use call_center.Prelude.StringMap.{lookup}
use call_center.Model.{AppError}
use call_center.Model.Maps.{StringMap}
use call_center.Model.Call.{CallRequest, CallEvent}
use call_center.Lru.{get, find, new_lru_with_params}
use call_center.Lru.Invariant.{new_lru-Inv}
use call_center.CallManager.State.{Call}
use call_center.CallManager.Call.{invite, invite_result}
use call_center.CallManager.Manager.{
  StoredCall, Switch, Manager, Result, returns, faults, and_then, new_call_manager, get_call,
  connection, run_method, hangup_many_call, handle_event, create_call, hangup_by_id,
}
use call_center.CallManager.Manager.Register.{Client, register_connection}
use call_center.CallManager.Manager.Connect.{inbound_call_queue, connect_call}
use call_center.CallManager.Manager.Cached.{IsSound, Sound, get_call-IsSound, run_method-Sound}
use call_center.CallManager.Manager.Methods.{
  ring_time_over, and_then-Sound, handle_event-Sound, hangup_many_call-Sound,
  inbound_call_queue-Sound, connect_call-Sound, created-IsSound, hangup_by_id-IsSound, invite-Keeps,
  invite_result-Keeps, ring_time_over-Sound, register_connection-IsSound,
}

-- One method of the manager, at a time of the clock.
pub data Step : Type 0 where
  event : ℤ → String → CallEvent → Step
  hangups : ℤ → String → List String → Step
  connects : ℤ → StoredCall → String → Step
  joins : ℤ → StoredCall → String → StringMap → Step
  creates : String → CallRequest → Step
  gets : ℤ → String → Step
  hangs_up_by_id : String → String → Step
  invites : ℤ → ℕ → Step
  invited : ℤ → ℕ → String → ℤ → Option AppError → Step
  ring_time_is_over : ℤ → ℕ → Step
  registers : Client → Step

-- A method returns, and then this holds of the manager.
abbrev pub Reached : {A : Type 0} → (Manager → Type 0) → Result A → Type 0
Reached P (returns a s) = P s
Reached P (faults e) = Unit

abbrev ignore : {A : Type 0} → Result A → Result (Unit {0})
ignore (returns a s) = returns tt s
ignore (faults e) = faults e

unfoldable pub step : Switch → Step → Manager → Result (Unit {0})
step sw (event now id e) s = handle_event now id e s
step sw (hangups now cause ids) s = hangup_many_call sw now cause ids s
step sw (connects now call ringtone) s = ignore (connect_call sw now call ringtone s)
step sw (joins now call ringtone vars) s = ignore (inbound_call_queue sw now call ringtone vars s)
step sw (creates uuid request) s = returns tt (create_call sw uuid request s).0
step sw (gets now id) s = returns tt (get_call now id s).0
step sw (hangs_up_by_id id node) s = returns tt (hangup_by_id sw id node s).0
step sw (invites now p) s = ignore (run_method now p invite s)
step sw (invited now p cause code err) s = run_method now p (invite_result now cause code err) s
step sw (ring_time_is_over now p) s = ring_time_over sw now p s
step sw (registers client) s = returns tt (register_connection client s).0

unfoldable pub run : Switch → List Step → Manager → Result (Unit {0})
unfolding step
run sw [] s = returns tt s
run sw (x ∷ xs) s = and_then (step sw x s) (λ _ u. run sw xs u)

ignore-Sound : {A : Type 0} → (r : Result A) → Sound r → Sound (ignore r)
ignore-Sound (returns a s) v = v
ignore-Sound (faults e) v = tt

step-Sound : (sw : Switch) (x : Step) (s : Manager) → IsSound s → Sound (step sw x s)
unfolding step create_call
step-Sound sw (event now id e) s v = handle_event-Sound now id e s v
step-Sound sw (hangups now cause ids) s v = hangup_many_call-Sound sw now cause ids s v
step-Sound sw (connects now call ringtone) s v =
    ignore-Sound (connect_call sw now call ringtone s) (connect_call-Sound sw now call ringtone s v)
step-Sound sw (joins now call ringtone vars) s v =
    ignore-Sound (inbound_call_queue sw now call ringtone vars s)
      (inbound_call_queue-Sound sw now call ringtone vars s v)
step-Sound sw (creates uuid request) s v =
    created-IsSound (connection sw.next_connection) uuid request s v
step-Sound sw (gets now id) s v = get_call-IsSound now id s v
step-Sound sw (hangs_up_by_id id node) s v = hangup_by_id-IsSound sw id node s v
step-Sound sw (invites now p) s v =
    ignore-Sound (run_method now p invite s) (run_method-Sound now p invite s invite-Keeps v)
step-Sound sw (invited now p cause code err) s v =
    run_method-Sound now p (invite_result now cause code err) s
      (invite_result-Keeps now cause code err) v
step-Sound sw (ring_time_is_over now p) s v = ring_time_over-Sound sw now p s v
step-Sound sw (registers client) s v = register_connection-IsSound client s v

run-Sound : (sw : Switch) (xs : List Step) (s : Manager) → IsSound s → Sound (run sw xs s)
unfolding run
run-Sound sw [] s v = v
run-Sound sw (x ∷ xs) s v =
    and_then-Sound (step sw x s) (λ _ u. run sw xs u) (step-Sound sw x s v)
      (λ _ u w. run-Sound sw xs u w)

pub new_call_manager-IsSound : (node_id : String) → IsSound (new_call_manager node_id)
unfolding new_call_manager new_lru_with_params get find lookup
new_call_manager-IsSound node_id = record {
  cache = new_lru-Inv 50000 (pos 86400);
  room = omega arith;
  held = λ now k p l. ground arith;
  below = λ p c l. ground arith;
}

abbrev pub Held : Manager → Type 0
Held s =
    (now : ℤ) (id : String) (p : ℕ)
    → (get_call now id s).1 ≡ some p
    → (c : Call) × (lookup p s.heap ≡ some c) × (c.id ≡ id)

Sound-Reached : {A : Type 0} → (r : Result A) → Sound r → Reached Held r
unfolding get_call
Sound-Reached (returns a s) v = v.held
Sound-Reached (faults e) v = tt

-- Whatever of these run one after the other from the start of the manager, if they return: `GetCall`,
-- `NewCall`, `ConnectCall`, `InboundCallQueue`, `HangupById`, `HangupManyCall`, the handling of an event,
-- the registration of a connection, and, of the call at any address, `Invite`, its result and the ring
-- timer. Then each id that the cache has leads to a call of this id.
pub run-Held :
    (sw : Switch) (xs : List Step) (node_id : String)
    → Reached Held (run sw xs (new_call_manager node_id))
run-Held sw xs node_id =
    Sound-Reached (run sw xs (new_call_manager node_id))
      (run-Sound sw xs (new_call_manager node_id) (new_call_manager-IsSound node_id))

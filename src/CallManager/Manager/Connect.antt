-- ===== src/CallManager/Manager/Connect.antt =====
-- call_manager/call_manager.go, `InboundCallQueue` and `ConnectCall`: a call of FreeSWITCH that joins a
-- queue, or is given to an agent.
use call_center.Prelude.{
  ℕ, String, Option, none, some, [], ◌∷◌, if◌then◌else◌, ◌==s◌, ◌⊎◌, inl, inr, nat_key,
}
use call_center.Prelude.Int.{ℤ, pos}
use call_center.Prelude.StringMap.{lookup}
use call_center.Model.{AppError}
use call_center.Model.Maps.{StringMap, union_string_maps}
use call_center.Model.Call.{CallEndpoint, CallActionInfo}
use call_center.CallManager.State.{
  Call, CallState, CallDirection, Command, Fault, M, ◌>>=◌, ◌>>◌, pure, self, modify,
}
use call_center.CallManager.Call.{zero_call, is_outbound}
use call_center.CallManager.Call.Media.{call_update_cid}
use call_center.CallManager.Manager.{
  StoredCall, Switch, Manager, Result, returns, faults, and_then, get_call, connection, run_method,
  allocate, save_to_cache_call, queue_variables, send_by,
}

-- `ResetBridge` of call_manager/call.go.
unfoldable pub reset_bridge : M (Unit {0})
reset_bridge = modify (λ c. record c { bridge_at = pos 0; bridged_id = none })

-- What both methods do with a call that the cache has.
unfoldable pub rejoin : (Command → Option AppError) → M (Option AppError)
unfolding call_update_cid reset_bridge
rejoin api = do
  c ← self
  err ← if is_outbound c.direction then call_update_cid api else pure none
  reset_bridge
  pure err

-- Both methods give the call, and the error of `UpdateCid`.
unfoldable pub rejoin_at : Switch → ℤ → ℕ → Manager → Result (AppError ⊎ (ℕ × Option AppError))
unfolding lookup run_method rejoin
rejoin_at sw now p s = elim (lookup p s.heap) [
  | none ↦ faults Fault.nil_pointer
  | some c ↦
      and_then (run_method now p (rejoin (sw.api c.api_name)) s) (λ err u. returns (inr (p, err)) u)
]

abbrev pub direction_of : StoredCall → CallDirection
direction_of call =
    if call.direction ==s "outbound" then CallDirection.outbound else CallDirection.inbound

abbrev from_endpoint : StoredCall → CallEndpoint
from_endpoint call = record {
  kind = "dest";
  id = call.from_number;
  number = call.from_number;
  name = call.from_name;
}

abbrev pub info_of : Option String → StoredCall → CallActionInfo
info_of parent_id call = record {
  gateway_id = none;
  user_id = none;
  direction = call.direction;
  destination = call.destination;
  from = some (from_endpoint call);
  to = none;
  parent_id = parent_id;
  payload = none;
}

-- The new object for a call that the cache does not have.
unfoldable pub joined_call : String → Option String → StoredCall → Call
unfolding zero_call
joined_call name parent_id call = record (zero_call none name (direction_of call) call.id) {
  accept_at = call.answered_at;
  ringing_at = call.created_at;
  state = CallState.accept;
  info = info_of parent_id call;
}

-- It is allocated and saved.
unfoldable pub adopt : ℤ → String → Option String → StoredCall → Manager → Manager
unfolding joined_call allocate save_to_cache_call
adopt now name parent_id call s =
    save_to_cache_call now call.id s.next (allocate (joined_call name parent_id call) s)

-- The end of `InboundCallQueue`, after the join.
unfoldable pub join_or_adopt :
    Switch → ℤ → String → StoredCall → Manager → Result (AppError ⊎ (ℕ × Option AppError))
unfolding get_call rejoin_at adopt
join_or_adopt sw now name call s =
    let (read, hit) = get_call now call.id s in
    elim hit [
      | some p ↦ rejoin_at sw now p read
      | none ↦ returns (inr (read.next, none)) (adopt now name none call read)
    ]

-- A step that needs a connection, and one after a command that may fail.
abbrev pub by_connection :
    {A : Type 0}
    → AppError ⊎ String
    → (String → Manager → Result (AppError ⊎ A))
    → Manager
    → Result (AppError ⊎ A)
by_connection (inl e) f s = returns (inl e) s
by_connection (inr name) f s = f name s

abbrev pub if_sent :
    {A : Type 0}
    → Manager × Option AppError
    → (Manager → Result (AppError ⊎ A))
    → Result (AppError ⊎ A)
if_sent (s, some e) f = returns (inl e) s
if_sent (s, none) f = f s

-- `InboundCallQueue` joins first, and then looks into the cache.
unfoldable pub inbound_call_queue :
    Switch
    → ℤ
    → StoredCall
    → String
    → StringMap
    → Manager
    → Result (AppError ⊎ (ℕ × Option AppError))
unfolding connection union_string_maps queue_variables join_or_adopt
inbound_call_queue sw now call ringtone vars s =
    by_connection (connection (sw.connection_by_id call.app_id))
      (λ name u.
        (let all = union_string_maps (vars ∷ queue_variables u ∷ []) in
          if_sent (send_by sw name (Command.join_queue call.id ringtone all) u)
            (join_or_adopt sw now name call)))
      s

-- The end of `ConnectCall`, after the join.
unfoldable pub set_and_adopt :
    Switch → ℤ → String → StoredCall → Manager → Result (AppError ⊎ (ℕ × Option AppError))
unfolding queue_variables adopt
set_and_adopt sw now name call s =
    let vars = queue_variables s in
    let (told, _) = send_by sw name (Command.set_call_variables call.id vars) s in
    returns (inr (told.next, none)) (adopt now name call.parent_id call told)

unfoldable pub join_and_adopt :
    Switch → ℤ → StoredCall → String → Manager → Result (AppError ⊎ (ℕ × Option AppError))
unfolding connection queue_variables set_and_adopt
join_and_adopt sw now call ringtone s =
    by_connection (connection (sw.connection_by_id call.app_id))
      (λ name u.
        if_sent (send_by sw name (Command.join_queue call.id ringtone (queue_variables u)) u)
          (set_and_adopt sw now name call))
      s

-- `ConnectCall` looks into the cache first, and joins only a call that is not there.
unfoldable pub connect_call :
    Switch → ℤ → StoredCall → String → Manager → Result (AppError ⊎ (ℕ × Option AppError))
unfolding get_call rejoin_at join_and_adopt
connect_call sw now call ringtone s =
    let (read, hit) = get_call now call.id s in
    elim hit [ some p ↦ rejoin_at sw now p read | none ↦ join_and_adopt sw now call ringtone read ]

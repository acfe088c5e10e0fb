-- ===== src/CallManager/Manager.antt =====
-- call_manager/call_manager.go, and `handleCallAction` of call_manager/call_events.go: the calls that
-- the manager holds. A call is shared by pointer: the cache holds addresses, the heap the calls. The
-- pool of connections and FreeSWITCH are services, which answer what the `Switch` says.
pub mod Connect
pub mod Cached
pub mod Methods
pub mod Runs
pub mod Laws
mod Tests
pub mod Register
use Prim.Native.String.{◌++◌ as text_append}
use call_center.Prelude.{
  ℕ, ◌+◌, String, Option, none, some, List, [], ◌∷◌, ◌++◌, Bool, true, false, if◌then◌else◌, ◌==s◌,
  ◌⊎◌, inl, inr, string_key, nat_key,
}
use call_center.Prelude.Int.{ℤ, pos}
use call_center.Prelude.StringMap.{lookup, insert}
use call_center.Model.{AppError, new_app_error}
use call_center.Model.Maps.{StringMap, union_string_maps}
use call_center.Model.Call.{CallRequest, CallEndpoint, CallActionInfo, CallEvent}
use call_center.Lru.{Cache, new_lru_with_params, get, add_with_default_expires, remove}
use call_center.CallManager.State.{
  Call, CallState, CallDirection, Command, Effect, Fault, World, Outcome, M, ◌>>=◌, ◌>>◌, pure,
  done, fault, self, modify, skip,
}
use call_center.CallManager.Call.{
  zero_call, new_call, is_outbound, hangup_call, handle_call_action, invite,
}
use call_center.CallManager.Call.Media.{call_update_cid}

-- model/call.go, `Call`: a call as the store has it, as far as the manager reads it.
pub record StoredCall : Type 0 where
  pub id : String
  pub direction : String
  pub destination : String
  pub parent_id : Option String
  pub app_id : String
  pub from_number : String
  pub from_name : String
  pub answered_at : ℤ
  pub created_at : ℤ

-- What the pool and the connections answer: the name of a connection or an error's text, and the
-- error of a command that is sent by the connection of a name.
pub record Switch : Type 0 where
  pub next_connection : String ⊎ String
  pub connection_by_id : String → String ⊎ String
  pub api : String → Command → Option AppError

-- `CallManagerImpl`. The address `next` is the one that the next allocation gives; `sent` is what
-- went out by each connection, the latest first.
pub record Manager : Type 0 where
  pub node_id : String
  pub flow_socket_uri : String
  pub proxy : String
  pub cdr : String
  pub calls : Cache String ℕ
  pub heap : List (ℕ × Call)
  pub next : ℕ
  pub sent : List (String × Effect)

abbrev pub max_call_cache : ℕ
max_call_cache = 50000

abbrev pub max_call_expire_cache : ℤ
max_call_expire_cache = pos 86400

unfoldable pub new_call_manager : String → Manager
unfolding new_lru_with_params
new_call_manager node_id = record {
  node_id = node_id;
  flow_socket_uri = "";
  proxy = "";
  cdr = "";
  calls = new_lru_with_params max_call_cache max_call_expire_cache;
  heap = [];
  next = 0;
  sent = [];
}

-- How a method of the manager ends: it returns, or a call's method faults.
pub data Result (A : Type 0) : Type 0 where
  returns : A → Manager → Result A
  faults : Fault → Result A

abbrev pub and_then : {A B : Type 0} → Result A → (A → Manager → Result B) → Result B
and_then (returns a s) f = f a s
and_then (faults e) f = faults e

unfoldable pub save_to_cache_call : ℤ → String → ℕ → Manager → Manager
unfolding add_with_default_expires
save_to_cache_call now id p s = record s { calls = add_with_default_expires now s.calls id p }

unfoldable pub remove_from_cache_call : String → Manager → Manager
unfolding remove
remove_from_cache_call id s = record s { calls = remove s.calls id }

-- One effect of a method of the call at an address.
unfoldable pub apply_effect : ℤ → ℕ → String → Effect → Manager → Manager
unfolding save_to_cache_call remove_from_cache_call
apply_effect now p name (Effect.save_to_cache id) s = save_to_cache_call now id p s
apply_effect now p name (Effect.remove_from_cache id) s = remove_from_cache_call id s
apply_effect now p name e s = record s { sent = (name, e) ∷ s.sent }

-- The oldest effect is the last of the list, and comes first.
unfoldable pub apply_effects : ℤ → ℕ → String → List Effect → Manager → Manager
unfolding apply_effect
apply_effects now p name [] s = s
apply_effects now p name (e ∷ es) s = apply_effect now p name e (apply_effects now p name es s)

-- A method of a call that has ended.
unfoldable pub finish : {A : Type 0} → ℤ → ℕ → Outcome A → Manager → Result A
unfolding apply_effects insert
finish now p (fault f) s = faults f
finish now p (done a w) s =
    returns a
      (apply_effects now p w.call.api_name w.effects (record s { heap = insert p w.call s.heap }))

-- A method of the call at an address.
unfoldable pub run_method : {A : Type 0} → ℤ → ℕ → M A → Manager → Result A
unfolding lookup finish
run_method now p m s = elim (lookup p s.heap) [
  | none ↦ faults Fault.nil_pointer
  | some c ↦ finish now p (m (record { call = c; effects = [] })) s
]

unfoldable pub allocate : Call → Manager → Manager
unfolding insert
allocate c s = record s { heap = insert s.next c s.heap; next = s.next + 1 }

-- `GetCall`: the cache, which `Get` reorders, and the call's address.
unfoldable pub get_call : ℤ → String → Manager → Manager × Option ℕ
unfolding get
get_call now id s = let (read, hit) = get now s.calls id in (record s { calls = read }, hit)

unfoldable pub active_calls : Manager → ℤ
active_calls s = s.calls.len

err_get_client : String → AppError
unfolding new_app_error
err_get_client text = new_app_error "CallManager" "call_manager.get_client.app_error" text (pos 500)

-- `getApiConnection` and `getApiConnectionById`.
unfoldable pub connection : String ⊎ String → AppError ⊎ String
unfolding err_get_client
connection (inl text) = inl (err_get_client text)
connection (inr name) = inr name

-- `Proxy`
unfoldable pub proxy_uri : Manager → String
proxy_uri s = text_append "sip:" s.proxy

-- `NewCall` of the manager: a call that nothing knows yet.
unfoldable pub create_by :
    AppError ⊎ String → String → CallRequest → Manager → Manager × (AppError ⊎ ℕ)
unfolding new_call allocate proxy_uri
create_by (inl e) uuid request s = (s, inl e)
create_by (inr name) uuid request s = (
  allocate (new_call uuid s.node_id (proxy_uri s) CallDirection.outbound request name) s,
  inr s.next,
)

unfoldable pub create_call : Switch → String → CallRequest → Manager → Manager × (AppError ⊎ ℕ)
unfolding connection create_by
create_call sw uuid request s = create_by (connection sw.next_connection) uuid request s

-- `call.Hangup` of the call at an address, by its own connection.
unfoldable pub hangup_at : Switch → ℤ → ℕ → String → Manager → Result (Option AppError)
unfolding run_method lookup hangup_call
hangup_at sw now p cause s = elim (lookup p s.heap) [
  | none ↦ faults Fault.nil_pointer
  | some c ↦ run_method now p (hangup_call (sw.api c.api_name) now cause false []) s
]

unfoldable pub hangup_many_call : Switch → ℤ → String → List String → Manager → Result (Unit {0})
unfolding get_call hangup_at
hangup_many_call sw now cause [] s = returns tt s
hangup_many_call sw now cause (id ∷ ids) s =
    let (read, hit) = get_call now id s in
    elim hit [
      | none ↦ hangup_many_call sw now cause ids read
      | some p ↦
          and_then (hangup_at sw now p cause read) (λ e u. hangup_many_call sw now cause ids u)
    ]

abbrev send_by : Switch → String → Command → Manager → Manager × Option AppError
send_by sw name c s = (record s { sent = (name, Effect.command c) ∷ s.sent }, sw.api name c)

unfoldable pub hangup_by_id : Switch → String → String → Manager → Manager × Option AppError
unfolding connection
hangup_by_id sw id node s = elim (connection (sw.connection_by_id node)) [
  | inl e ↦ (s, some e)
  | inr name ↦ send_by sw name (Command.hangup_call id "LOSE_RACE" false []) s
]

-- The variables that a queue sets on a call.
unfoldable pub queue_variables : Manager → StringMap
unfolding insert
queue_variables s = insert "cc_result" "abandoned" (insert "cc_app_id" s.node_id [])

-- `handleCallAction`: an event for a call that the cache does not have is dropped.
unfoldable pub handle_event : ℤ → String → CallEvent → Manager → Result (Unit {0})
unfolding get_call run_method handle_call_action
handle_event now id e s =
    let (read, hit) = get_call now id s in
    elim hit [ none ↦ returns tt read | some p ↦ run_method now p (handle_call_action now e) read ]

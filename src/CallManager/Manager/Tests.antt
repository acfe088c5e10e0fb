-- ===== src/CallManager/Manager/Tests.antt =====
-- The theorems on the manager of the calls, at a call that joins, rings and ends.
use call_center.Prelude.{
  ◌≡◌, refl, none, some, List, [], ◌∷◌, inr, arith, false, string_key, nat_key,
}
use call_center.Prelude.Int.{pos, int64, ◌+ℤ◌, ◌-ℤ◌}
use call_center.Prelude.StringMap
use call_center.Model.Call.{CallRequest, CallEvent, CallActionHangup, CallActionRinging}
use call_center.Lru
use call_center.Lru.Elements
use call_center.CallManager.State.{Fault}
use call_center.CallManager.Call.{zero_call, invite}
use call_center.CallManager.Manager.{
  StoredCall, Switch, Manager, faults, new_call_manager, get_call, handle_event, allocate,
  save_to_cache_call, run_method, create_call,
}
use call_center.CallManager.Manager.Connect.{joined_call, adopt, connect_call, info_of}
use call_center.CallManager.Manager.Register.{ready, NotReady}
use call_center.CallManager.Manager.Cached.{IsSound, allocate-Holds, save-IsSound}
use call_center.CallManager.Manager.Runs.{
  Step, event, connects, creates, invites, gets, run, Reached, Held, run-Held,
  new_call_manager-IsSound,
}
use call_center.CallManager.Manager.Laws.{
  Ends, Without, Joined, handle_event-hangup, connect_call-get_call, connect_call-ringing,
}

abbrev one_switch : Switch
one_switch = record {
  next_connection = inr "fs";
  connection_by_id = λ id. inr "fs";
  api = λ name c. none;
}

abbrev caller : StoredCall
caller = record {
  id = "c-1";
  direction = "inbound";
  destination = "100";
  parent_id = none;
  app_id = "fs";
  from_number = "200";
  from_name = "Bob";
  answered_at = pos 2000;
  created_at = pos 1000;
}

empty_manager : Manager
unfolding new_call_manager
empty_manager = new_call_manager "node"

empty_manager-IsSound : IsSound empty_manager
unfolding empty_manager
empty_manager-IsSound = new_call_manager-IsSound "node"

empty_miss : (get_call (pos 10) "c-1" empty_manager).1 ≡ none
unfolding empty_manager get_call new_call_manager Lru.get Lru.find Lru.new_lru_with_params
    StringMap.lookup
empty_miss = refl

empty_expiry : empty_manager.calls.default_expiry ≡ pos 86400
unfolding empty_manager new_call_manager Lru.new_lru_with_params
empty_expiry = refl

rings : CallActionRinging
rings = record {
  action = record {
    id = "c-1";
    app_id = "fs";
    domain_id = pos 1;
    timestamp = pos 3000;
    event = "ringing";
  };
  info = info_of none caller;
}

abbrev ends : CallActionHangup
ends = record {
  action = record {
    id = "c-1";
    app_id = "fs";
    domain_id = pos 1;
    timestamp = pos 9000;
    event = "hangup";
  };
  cause = "NORMAL_CLEARING";
  sip_code = none;
  origin_success = none;
  reporting_at = none;
  transfer_to = none;
  transfer_from = none;
  transfer_to_agent = none;
  transfer_from_attempt = none;
  transfer_to_attempt = none;
  variables = [];
}

abbrev request : CallRequest
request = record {
  id = some "c-2";
  endpoints = "sofia/gateway/1" ∷ [];
  strategy = 0;
  destination = "100";
  variables = none;
  timeout = 30;
  caller_name = "";
  caller_number = "";
  dialplan = "";
  context = "";
  applications = [];
  check_parent_id = "";
  origination_number = "";
}

-- One call comes in and ends, another is created and invited, and stays.
abbrev two_calls : List Step
two_calls =
    connects (pos 10) caller "tone"
    ∷ event (pos 11) "c-1" (CallEvent.hangup ends)
    ∷ creates "c-2" request
    ∷ invites (pos 12) 1
    ∷ gets (pos 13) "c-2"
    ∷ []

run-Held_example : Reached Held (run one_switch two_calls (new_call_manager "node"))
run-Held_example = run-Held one_switch two_calls "node"

-- The invited call is in the cache.
invited_held :
    Reached
      (λ u. (get_call (pos 14) "c-2" u).1 ≡ some 0)
      (run one_switch (creates "c-2" request ∷ invites (pos 12) 0 ∷ []) (new_call_manager "node"))
unfolding run new_call_manager run_method create_call invite get_call Lru.find
    Lru.add_with_expires_in_secs Lru.evict Lru.push_new Elements.deref Lru.deadline int64 ◌+ℤ◌
invited_held = refl

connect_call-get_call_example :
    Ends
      (Joined (pos 10) "fs" "tone" caller empty_manager)
      (connect_call one_switch (pos 10) caller "tone" empty_manager)
connect_call-get_call_example =
    connect_call-get_call one_switch (pos 10) "fs" "tone" caller empty_manager empty_manager-IsSound
      empty_miss refl refl

connect_call-ringing_example :
    Ends
      (λ u. handle_event (pos 20) "c-1" (CallEvent.ringing rings) u ≡ faults Fault.nil_pointer)
      (connect_call one_switch (pos 10) caller "tone" empty_manager)
unfolding Lru.deadline int64 ◌+ℤ◌ ◌-ℤ◌
connect_call-ringing_example =
    connect_call-ringing one_switch (pos 10) (pos 20) "fs" "tone" caller rings empty_manager
      empty_manager-IsSound empty_miss refl refl (rw empty_expiry refl)

-- The manager once the call has joined.
with_call : Manager
unfolding adopt empty_manager
with_call = adopt (pos 10) "fs" none caller empty_manager

with_call-IsSound : IsSound with_call
unfolding with_call adopt empty_manager new_call_manager joined_call zero_call
with_call-IsSound =
    let h = allocate-Holds (joined_call "fs" none caller) empty_manager empty_manager-IsSound in
    save-IsSound (pos 10) "c-1" 0 (joined_call "fs" none caller)
      (allocate (joined_call "fs" none caller) empty_manager) h.sound h.stands refl

with_call-hit : (get_call (pos 20) "c-1" with_call).1 ≡ some 0
unfolding with_call adopt empty_manager new_call_manager allocate save_to_cache_call get_call
    Lru.get Lru.add_with_default_expires Lru.add_with_expires_in_secs Lru.find Lru.push_new
    Lru.evict Lru.deadline Lru.new_lru_with_params StringMap.lookup StringMap.insert Elements.deref
    Elements.move_to_front Elements.unlink int64 ◌+ℤ◌ ◌-ℤ◌
with_call-hit = refl

with_call-object : StringMap.lookup 0 with_call.heap ≡ some (joined_call "fs" none caller)
unfolding with_call adopt empty_manager new_call_manager allocate save_to_cache_call
    StringMap.lookup StringMap.insert
with_call-object = refl

handle_event-hangup_example :
    Ends (Without "c-1" with_call) (handle_event (pos 20) "c-1" (CallEvent.hangup ends) with_call)
unfolding joined_call zero_call
handle_event-hangup_example =
    handle_event-hangup (pos 20) "c-1" ends 0 (joined_call "fs" none caller) with_call
      with_call-IsSound with_call-hit with_call-object refl refl (omega arith)

not_ready : ready (some false ∷ none ∷ []) ≡ some NotReady.err_not_ready
unfolding ready
not_ready = refl

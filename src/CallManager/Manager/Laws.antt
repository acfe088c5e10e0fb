-- ===== src/CallManager/Manager/Laws.antt =====
-- call_manager/call_manager.go: a call that joins is in the cache, and one that ends is not.
use call_center.Prelude.{
  ℕ, ◌<◌, ◌≡◌, refl, subst, String, none, some, [], ◌∷◌, false, if◌then◌else◌, ==_iff, ◌==s◌,
  ==s_iff, inr, arith, length, string_key, nat_key,
}
use call_center.Prelude.Int.{ℤ, pos, ==ℤ_iff}
use call_center.Prelude.StringMap.{lookup, lookup-insert}
use call_center.Model.Call.{CallEvent, CallActionHangup, CallActionRinging, ringing, hangup}
use call_center.Lru.{get, remove, add_with_default_expires, is_expired, deadline}
use call_center.Lru.Invariant.{Inv}
use call_center.Lru.Access.{get-Inv}
use call_center.Lru.Answers.{get-get, get-remove}
use call_center.Lru.Order.{get-add}
use call_center.Lru.Sizes.{get_size, get_expiry}
use call_center.CallManager.State.{
  Call, Command, Effect, Fault, Outcome, done, fault, Returns, ch_state_capacity,
}
use call_center.CallManager.Call.{
  zero_call, handle_call_action, set_hangup, set_state, close_hangup, set_ringing,
}
use call_center.CallManager.Manager.{
  StoredCall, Switch, Manager, Result, returns, faults, get_call, connection, run_method, finish,
  apply_effects, apply_effect, allocate, save_to_cache_call, remove_from_cache_call, handle_event,
  queue_variables,
}
use call_center.CallManager.Manager.Connect.{
  joined_call, adopt, join_and_adopt, connect_call, set_and_adopt,
}
use call_center.CallManager.Manager.Cached.{IsSound}

-- The method returns, and then this holds.
abbrev pub Ends : {A : Type 0} → (Manager → Type 0) → Result A → Type 0
Ends P (returns a s) = P s
Ends P (faults e) = ⊥

-- `setHangup` of a call that has not ended.
hangup_removes :
    (now : ℤ) (e : CallActionHangup) (c : Call)
    → c.hangup_at ≡ pos 0
    → c.hangup_closed ≡ false
    → length c.ch_state < ch_state_capacity
    → Returns
        (λ _ w. w.effects ≡ Effect.remove_from_cache c.id ∷ [])
        (handle_call_action now (hangup e) (record { call = c; effects = [] }))
unfolding handle_call_action set_hangup set_state close_hangup
hangup_removes now e c h o r = ground (arith, ==ℤ_iff c.hangup_at (pos 0))

finish_removed :
    {A : Type 0}
    → (now : ℤ) (p : ℕ) (id : String) (o : Outcome A) (s : Manager)
    → Returns (λ _ w. w.effects ≡ Effect.remove_from_cache id ∷ []) o
    → Ends (λ u. u.calls ≡ remove s.calls id) (finish now p o s)
unfolding finish apply_effects apply_effect remove_from_cache_call
finish_removed now p id (done a w) s k = rw k refl
finish_removed now p id (fault f) s k = k

-- What the cache answers, but for one id.
abbrev pub Without : String → Manager → Manager → Type 0
Without id s u =
    (later : ℤ) (j : String)
    → (get_call later j u).1 ≡ (if id ==s j then none else (get_call later j s).1)

removed_Without :
    (now : ℤ) (id : String) (s u : Manager)
    → Inv s.calls
    → u.calls ≡ remove (get now s.calls id).0 id
    → Without id s u
unfolding get_call
removed_Without now id s u v q later j =
    rw (q, get-remove later (get now s.calls id).0 id j (get-Inv now s.calls id v))
      (ground (arith, get-get now later s.calls id j v))

Ends-map :
    {A : Type 0}
    → {P Q : Manager → Type 0} → (r : Result A) → ((u : Manager) → P u → Q u)
    → Ends P r
    → Ends Q r
Ends-map (returns a s) f e = f s e
Ends-map (faults x) f e = e

-- The end of a call that has not ended, whose channel is open and has a place free, in a sound manager
-- that has the call: the method returns, the cache does not have the call any more, and answers for
-- each other id as before.
pub handle_event-hangup :
    (now : ℤ) (id : String) (e : CallActionHangup) (p : ℕ) (c : Call) (s : Manager)
    → IsSound s
    → (get_call now id s).1 ≡ some p
    → lookup p s.heap ≡ some c
    → c.hangup_at ≡ pos 0
    → c.hangup_closed ≡ false
    → length c.ch_state < ch_state_capacity
    → Ends (Without id s) (handle_event now id (hangup e) s)
unfolding handle_event get_call run_method
handle_event-hangup now id e p c s v hit there h o_closed r =
    let (d, here, same) = v.held now id p hit in
    let own : c.id ≡ id = ground arith in
    rw (hit, handle_event)
      (rw (there, run_method)
        (let o = handle_call_action now (hangup e) (record { call = c; effects = [] }) in
          let gone =
            subst (λ i. Returns (λ _ w. w.effects ≡ Effect.remove_from_cache i ∷ []) o) own
              (hangup_removes now e c h o_closed r) in
          let read = (get_call now id s).0 in
          Ends-map (finish now p o read) (λ u q. removed_Without now id s u v.cache q)
            (finish_removed now p id o read gone)))

-- What `ConnectCall` has done when it took a new call.
pub record Joined (now : ℤ) (name ringtone : String) (call : StoredCall) (s u : Manager)
    : Type 0 where
  pub found :
      (later : ℤ)
      → is_expired later (deadline now s.calls.default_expiry) ≡ false
      → (get_call later call.id u).1 ≡ some s.next
  pub object : lookup s.next u.heap ≡ some (joined_call name call.parent_id call)
  pub told :
      u.sent
      ≡ (name, Effect.command (Command.set_call_variables call.id (queue_variables s)))
        ∷ (name, Effect.command (Command.join_queue call.id ringtone (queue_variables s)))
        ∷ s.sent

adopted :
    (now : ℤ) (call : StoredCall) (s u : Manager)
    → IsSound s
    → u.calls ≡ add_with_default_expires now (get now s.calls call.id).0 call.id s.next
    → (later : ℤ) → is_expired later (deadline now s.calls.default_expiry) ≡ false
    → (get_call later call.id u).1 ≡ some s.next
unfolding get_call add_with_default_expires
adopted now call s u v q later d =
    let read = (get now s.calls call.id).0 in
    rw q (
      ground (
        arith,
        get-add now later read call.id s.next read.default_expiry call.id
            (get-Inv now s.calls call.id v.cache)
            (omega (arith, get_size now s.calls call.id, v.room)),
        ==s_iff call.id call.id,
        get_expiry now s.calls call.id,
      ))

adopt-Joined :
    (now : ℤ) (name ringtone : String) (call : StoredCall) (s t : Manager)
    → IsSound s
    → t.calls ≡ (get now s.calls call.id).0
    → t.heap ≡ s.heap
    → t.next ≡ s.next
    → t.sent
      ≡ (name, Effect.command (Command.set_call_variables call.id (queue_variables s)))
        ∷ (name, Effect.command (Command.join_queue call.id ringtone (queue_variables s)))
        ∷ s.sent
    → Joined now name ringtone call s (adopt now name call.parent_id call t)
unfolding adopt allocate save_to_cache_call
adopt-Joined now name ringtone call s t v calls heap next sent = record {
  found = adopted now call s (adopt now name call.parent_id call t) v (rw (calls, next) refl);
  object = ground (
    arith,
    lookup-insert s.next s.next (joined_call name call.parent_id call) s.heap,
    ==_iff s.next s.next,
  );
  told = sent;
}

-- A new call joins a sound manager, where the pool has its connection and the join succeeds: it is the one that the
-- cache gives for its id, until it expires; the commands are the join, and then the variables.
pub connect_call-get_call :
    (sw : Switch) (now : ℤ) (name ringtone : String) (call : StoredCall) (s : Manager)
    → IsSound s
    → (get_call now call.id s).1 ≡ none
    → sw.connection_by_id call.app_id ≡ inr name
    → sw.api name (Command.join_queue call.id ringtone (queue_variables s)) ≡ none
    → Ends (Joined now name ringtone call s) (connect_call sw now call ringtone s)
unfolding connect_call join_and_adopt connection set_and_adopt adopt allocate save_to_cache_call
    get_call queue_variables
connect_call-get_call sw now name ringtone call s v miss conn ok =
    rw (miss, connect_call)
      (rw (conn, join_and_adopt)
        (rw ok (adopt-Joined now name ringtone call s _ v refl refl refl refl)))

no_request :
    (name : String) (call : StoredCall) → (joined_call name call.parent_id call).call_request ≡ none
unfolding joined_call zero_call
no_request name call = refl

no_timer :
    (name : String) (call : StoredCall) → (joined_call name call.parent_id call).ring_timeout ≡ none
unfolding joined_call zero_call
no_timer name call = refl

ringing_faults :
    (now : ℤ) (e : CallActionRinging) (c : Call)
    → c.call_request ≡ none
    → c.ring_timeout ≡ none
    → handle_call_action now (ringing e) (record { call = c; effects = [] })
      ≡ fault Fault.nil_pointer
unfolding handle_call_action set_ringing
ringing_faults now e c n t = ground arith

-- After a new call has so joined a sound manager, an event that it rings panics, while the cache has the call: the object
-- has no request and no timer, and the code reads the timeout of the request.
pub connect_call-ringing :
    (sw : Switch) (now later : ℤ) (name ringtone : String) (call : StoredCall)
    (e : CallActionRinging) (s : Manager)
    → IsSound s
    → (get_call now call.id s).1 ≡ none
    → sw.connection_by_id call.app_id ≡ inr name
    → sw.api name (Command.join_queue call.id ringtone (queue_variables s)) ≡ none
    → is_expired later (deadline now s.calls.default_expiry) ≡ false
    → Ends
        (λ u. handle_event later call.id (CallEvent.ringing e) u ≡ faults Fault.nil_pointer)
        (connect_call sw now call ringtone s)
unfolding handle_event get_call run_method finish
connect_call-ringing sw now later name ringtone call e s v miss conn ok d =
    Ends-map (connect_call sw now call ringtone s)
      (λ u j.
        rw (j.found later d, handle_event)
          (rw (j.object, run_method)
            (rw
              (ringing_faults later e (joined_call name call.parent_id call) (no_request name call)
                (no_timer name call))
              refl)))
      (connect_call-get_call sw now name ringtone call s v miss conn ok)

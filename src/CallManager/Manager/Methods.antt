-- ===== src/CallManager/Manager/Methods.antt =====
-- The methods of call_manager/call_manager.go, and those of a call at an address, keep what the cache
-- leads to.
use call_center.Prelude.{
  ℕ, ◌≡◌, ◌<◌, refl, sym, subst, String, Option, none, some, Option-cases, List, [], ◌∷◌, ◌⊎◌, inl,
  inr, arith, string_key, nat_key,
}
use call_center.Prelude.Int.{ℤ}
use call_center.Prelude.StringMap.{lookup}
use call_center.Model.{AppError}
use call_center.Model.Maps.{StringMap}
use call_center.Model.Call.{CallRequest, CallEvent}
use call_center.Lru.{get}
use call_center.Lru.Invariant.{Inv}
use call_center.CallManager.State.{Command, Fault}
use call_center.CallManager.Call.{
  zero_call, invite, invite_result, ring_timer_fires, hangup_call, set_hangup,
}
use call_center.CallManager.Call.Media.{call_update_cid}
use call_center.CallManager.Manager.{
  StoredCall, Switch, Manager, Result, returns, faults, and_then, get_call, connection, run_method,
  allocate, hangup_at, hangup_many_call, handle_event, create_by, hangup_by_id,
}
use call_center.CallManager.Manager.Register.{
  Client, register_connection, SameCalls, register_connection-SameCalls,
}
use call_center.CallManager.Manager.Connect.{
  reset_bridge, rejoin, rejoin_at, joined_call, adopt, join_or_adopt, inbound_call_queue,
  join_and_adopt, connect_call, by_connection, if_sent, set_and_adopt,
}
use call_center.CallManager.Manager.Cached.{
  IsSound, Keeps, Sound, get_call-IsSound, save-IsSound, sent-IsSound, allocate-Holds,
  run_method-Sound, handle_call_action-Keeps, hangup_call-Keeps,
}

-- The ring timer of the call at an address, which hangs up by the call's own connection.
unfoldable pub ring_time_over : Switch → ℤ → ℕ → Manager → Result (Unit {0})
unfolding lookup run_method ring_timer_fires
ring_time_over sw now p s = elim (lookup p s.heap) [
  | none ↦ faults Fault.nil_pointer
  | some c ↦ run_method now p (ring_timer_fires (sw.api c.api_name) now) s
]

pub and_then-Sound :
    {A B : Type 0}
    → (r : Result A) (f : A → Manager → Result B) → Sound r
    → ((a : A) (s : Manager) → IsSound s → Sound (f a s))
    → Sound (and_then r f)
and_then-Sound (returns a s) f v k = k a s v
and_then-Sound (faults e) f v k = tt

pub handle_event-Sound :
    (now : ℤ) (id : String) (e : CallEvent) (s : Manager)
    → IsSound s
    → Sound (handle_event now id e s)
unfolding handle_event
handle_event-Sound now id e s v = elim (Option-cases (get_call now id s).1) [
  | inl miss ↦ rw (miss, handle_event) (get_call-IsSound now id s v)
  | inr (p, hit) ↦
      rw (hit, handle_event)
        (run_method-Sound now p _ (get_call now id s).0 (handle_call_action-Keeps now e)
          (get_call-IsSound now id s v))
]

hangup_at-Sound :
    (sw : Switch) (now : ℤ) (p : ℕ) (cause : String) (s : Manager)
    → IsSound s
    → Sound (hangup_at sw now p cause s)
unfolding hangup_at
hangup_at-Sound sw now p cause s v = elim (Option-cases (lookup p s.heap)) [
  | inl miss ↦ rw (miss, hangup_at) tt
  | inr (c, hit) ↦
      rw (hit, hangup_at)
        (run_method-Sound now p _ s (hangup_call-Keeps (sw.api c.api_name) now cause) v)
]

pub hangup_many_call-Sound :
    (sw : Switch) (now : ℤ) (cause : String) (ids : List String) (s : Manager)
    → IsSound s
    → Sound (hangup_many_call sw now cause ids s)
unfolding hangup_many_call
hangup_many_call-Sound sw now cause [] s v = v
hangup_many_call-Sound sw now cause (id ∷ ids) s v =
    let read = (get_call now id s).0 in
    let sound = get_call-IsSound now id s v in
    elim (Option-cases (get_call now id s).1) [
      | inl miss ↦ rw (miss, hangup_many_call) (hangup_many_call-Sound sw now cause ids read sound)
      | inr (p, hit) ↦
          rw (hit, hangup_many_call)
            (and_then-Sound (hangup_at sw now p cause read)
              (λ _ u. hangup_many_call sw now cause ids u)
              (hangup_at-Sound sw now p cause read sound)
              (λ _ u w. hangup_many_call-Sound sw now cause ids u w))
    ]

rejoin-Keeps : (api : Command → Option AppError) → Keeps (rejoin api)
unfolding rejoin call_update_cid reset_bridge
rejoin-Keeps api w o = ground arith

rejoin_at-Sound :
    (sw : Switch) (now : ℤ) (p : ℕ) (s : Manager) → IsSound s → Sound (rejoin_at sw now p s)
unfolding rejoin_at
rejoin_at-Sound sw now p s v = elim (Option-cases (lookup p s.heap)) [
  | inl miss ↦ rw (miss, rejoin_at) tt
  | inr (c, hit) ↦
      rw (hit, rejoin_at)
        (and_then-Sound (run_method now p (rejoin (sw.api c.api_name)) s)
          (λ err u. returns (inr (p, err)) u)
          (run_method-Sound now p _ s (rejoin-Keeps (sw.api c.api_name)) v) (λ _ u w. w))
]

adopt-IsSound :
    (now : ℤ) (name : String) (parent : Option String) (call : StoredCall) (s : Manager)
    → IsSound s
    → IsSound (adopt now name parent call s)
unfolding adopt joined_call zero_call
adopt-IsSound now name parent call s v =
    let h = allocate-Holds (joined_call name parent call) s v in
    save-IsSound now call.id s.next (joined_call name parent call)
      (allocate (joined_call name parent call) s) h.sound h.stands refl

join_or_adopt-Sound :
    (sw : Switch) (now : ℤ) (name : String) (call : StoredCall) (s : Manager)
    → IsSound s
    → Sound (join_or_adopt sw now name call s)
unfolding join_or_adopt
join_or_adopt-Sound sw now name call s v =
    let read = get_call-IsSound now call.id s v in
    elim (Option-cases (get_call now call.id s).1) [
      | inl miss ↦
          rw (miss, join_or_adopt)
            (adopt-IsSound now name none call (get_call now call.id s).0 read)
      | inr (p, hit) ↦
          rw (hit, join_or_adopt) (rejoin_at-Sound sw now p (get_call now call.id s).0 read)
    ]

by_connection-Sound :
    {A : Type 0}
    → (c : AppError ⊎ String) (f : String → Manager → Result (AppError ⊎ A)) (s : Manager)
    → IsSound s
    → ((name : String) → Sound (f name s))
    → Sound (by_connection c f s)
by_connection-Sound (inl e) f s v k = v
by_connection-Sound (inr name) f s v k = k name

if_sent-Sound :
    {A : Type 0}
    → (r : Manager × Option AppError) (f : Manager → Result (AppError ⊎ A)) → IsSound r.0
    → Sound (f r.0)
    → Sound (if_sent r f)
if_sent-Sound (s, some e) f v k = v
if_sent-Sound (s, none) f v k = k

pub inbound_call_queue-Sound :
    (sw : Switch) (now : ℤ) (call : StoredCall) (ringtone : String) (vars : StringMap) (s : Manager)
    → IsSound s
    → Sound (inbound_call_queue sw now call ringtone vars s)
unfolding inbound_call_queue
inbound_call_queue-Sound sw now call ringtone vars s v =
    by_connection-Sound (connection (sw.connection_by_id call.app_id)) _ s v (λ name.
      (let told = sent-IsSound _ s v in
        if_sent-Sound _ (join_or_adopt sw now name call) told
          (join_or_adopt-Sound sw now name call _ told)))

set_and_adopt-Sound :
    (sw : Switch) (now : ℤ) (name : String) (call : StoredCall) (s : Manager)
    → IsSound s
    → Sound (set_and_adopt sw now name call s)
unfolding set_and_adopt
set_and_adopt-Sound sw now name call s v =
    adopt-IsSound now name call.parent_id call _ (sent-IsSound _ s v)

join_and_adopt-Sound :
    (sw : Switch) (now : ℤ) (call : StoredCall) (ringtone : String) (s : Manager)
    → IsSound s
    → Sound (join_and_adopt sw now call ringtone s)
unfolding join_and_adopt
join_and_adopt-Sound sw now call ringtone s v =
    by_connection-Sound (connection (sw.connection_by_id call.app_id)) _ s v (λ name.
      (let told = sent-IsSound _ s v in
        if_sent-Sound _ (set_and_adopt sw now name call) told
          (set_and_adopt-Sound sw now name call _ told)))

pub connect_call-Sound :
    (sw : Switch) (now : ℤ) (call : StoredCall) (ringtone : String) (s : Manager)
    → IsSound s
    → Sound (connect_call sw now call ringtone s)
unfolding connect_call
connect_call-Sound sw now call ringtone s v =
    let read = get_call-IsSound now call.id s v in
    elim (Option-cases (get_call now call.id s).1) [
      | inl miss ↦
          rw (miss, connect_call)
            (join_and_adopt-Sound sw now call ringtone (get_call now call.id s).0 read)
      | inr (p, hit) ↦
          rw (hit, connect_call) (rejoin_at-Sound sw now p (get_call now call.id s).0 read)
    ]

pub created-IsSound :
    (c : AppError ⊎ String) (uuid : String) (request : CallRequest) (s : Manager)
    → IsSound s
    → IsSound (create_by c uuid request s).0
unfolding create_by
created-IsSound (inl e) uuid request s v = v
created-IsSound (inr name) uuid request s v = (allocate-Holds _ s v).sound

sum_cases : {A B : Type 0} → (x : A ⊎ B) → ((a : A) × (x ≡ inl a)) ⊎ ((b : B) × (x ≡ inr b))
sum_cases (inl a) = inl (a, refl)
sum_cases (inr b) = inr (b, refl)

pub hangup_by_id-IsSound :
    (sw : Switch) (id node : String) (s : Manager)
    → IsSound s
    → IsSound (hangup_by_id sw id node s).0
unfolding hangup_by_id
hangup_by_id-IsSound sw id node s v = elim (sum_cases (connection (sw.connection_by_id node))) [
  | inl (e, h) ↦ rw (h, hangup_by_id) v
  | inr (name, h) ↦ rw (h, hangup_by_id) (sent-IsSound _ s v)
]

pub invite-Keeps : Keeps invite
unfolding invite
invite-Keeps w o = ground arith

pub invite_result-Keeps :
    (now : ℤ) (cause : String) (code : ℤ) (err : Option AppError)
    → Keeps (invite_result now cause code err)
unfolding invite_result set_hangup
invite_result-Keeps now cause code err w o = ground arith

ring_timer_fires-Keeps :
    (api : Command → Option AppError) (now : ℤ) → Keeps (ring_timer_fires api now)
unfolding ring_timer_fires hangup_call set_hangup
ring_timer_fires-Keeps api now w o = ground arith

pub ring_time_over-Sound :
    (sw : Switch) (now : ℤ) (p : ℕ) (s : Manager) → IsSound s → Sound (ring_time_over sw now p s)
unfolding ring_time_over
ring_time_over-Sound sw now p s v = elim (Option-cases (lookup p s.heap)) [
  | inl miss ↦ rw (miss, ring_time_over) tt
  | inr (c, hit) ↦
      rw (hit, ring_time_over)
        (run_method-Sound now p _ s (ring_timer_fires-Keeps (sw.api c.api_name) now) v)
]

same-IsSound : (s u : Manager) → SameCalls s u → IsSound s → IsSound u
same-IsSound s u k v = record {
  cache = subst Inv (sym k.same_calls) v.cache;
  room = subst (λ c. 0 < c.size) (sym k.same_calls) v.room;
  held = λ now id p h.
      (let (c, there, own) =
          v.held now id p (subst (λ x. (get now x id).1 ≡ some p) k.same_calls h) in
        (c, subst (λ x. lookup p x ≡ some c) (sym k.same_heap) there, own));
  below = λ p c l.
      subst (λ n. p < n) (sym k.same_next)
        (v.below p c (subst (λ x. lookup p x ≡ some c) k.same_heap l));
}

pub register_connection-IsSound :
    (client : Client) (s : Manager) → IsSound s → IsSound (register_connection client s).0
register_connection-IsSound client s v =
    same-IsSound s (register_connection client s).0 (register_connection-SameCalls client s) v

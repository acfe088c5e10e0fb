-- ===== src/CallManager/Manager/Cached.antt =====
-- What the cache of call_manager/call_manager.go leads to: each key to the address of a call of this
-- id, whatever the methods of the manager do.
use call_center.Prelude.{
  ℕ, ◌<◌, ◌≡◌, refl, sym, ap, subst, ◌∙◌, Bool-cases, ◌⊎◌, String, Option, none, some, Option-cases,
  List, [], ◌∷◌, false, ◌==◌, ==_iff, ==s_iff, inl, inr, arith, string_key, nat_key,
}
use call_center.Prelude.Int.{ℤ}
use call_center.Prelude.StringMap.{lookup, insert, lookup-insert}
use call_center.Model.Call.{
  CallEvent, ringing, progress, active, hold, bridge, hangup, amd, unknown,
}
use call_center.Lru.{get, add_with_default_expires}
use call_center.Lru.Invariant.{Inv, add-Inv}
use call_center.Lru.Sizes.{get_size, add_size, remove_size}
use call_center.Lru.Access.{get-Inv, remove-Inv}
use call_center.Lru.Answers.{get-get, get-remove}
use call_center.Lru.Order.{get-add}
use call_center.CallManager.State.{
  Call, Effect, Command, World, Outcome, M, done, fault, OnDone, command, originate, save_to_cache,
  remove_from_cache,
}
use call_center.CallManager.Call.{
  handle_call_action, set_ringing, set_progress, set_active, set_bridge, set_hold, set_hangup,
  set_amd, hangup_call,
}
use call_center.CallManager.Manager.{
  Manager, Result, returns, faults, run_method, finish, apply_effect, apply_effects, allocate,
  get_call, save_to_cache_call, remove_from_cache_call,
}

pub record IsSound (s : Manager) : Type 0 where
  pub cache : Inv s.calls
  pub room : 0 < s.calls.size
  pub held :
      (now : ℤ) (k : String) (p : ℕ)
      → (get now s.calls k).1 ≡ some p
      → (c : Call) × (lookup p s.heap ≡ some c) × (c.id ≡ k)
  pub below : (p : ℕ) (c : Call) → lookup p s.heap ≡ some c → p < s.next

-- The effects of a method save its own call only.
abbrev pub Own : String → List Effect → Type 0
Own id [] = Unit
Own id (save_to_cache j ∷ es) = (j ≡ id) × Own id es
Own id (remove_from_cache j ∷ es) = Own id es
Own id (command c ∷ es) = Own id es
Own id (originate r ∷ es) = Own id es

abbrev pub Keeps : {A : Type 0} → M A → Type 0
Keeps m =
    (w : World)
    → Own w.call.id w.effects
    → OnDone (λ u. (u.call.id ≡ w.call.id) × Own w.call.id u.effects) (m w)

pub handle_call_action-Keeps : (now : ℤ) (e : CallEvent) → Keeps (handle_call_action now e)
unfolding handle_call_action set_ringing set_progress set_active set_bridge set_hold set_hangup
    set_amd
handle_call_action-Keeps now (ringing e) w o = ground arith
handle_call_action-Keeps now (progress e) w o = ground arith
handle_call_action-Keeps now (active e) w o = ground arith
handle_call_action-Keeps now (bridge e) w o = ground arith
handle_call_action-Keeps now (hold e) w o = ground arith
handle_call_action-Keeps now (hangup e) w o = ground arith
handle_call_action-Keeps now (amd e) w o = ground arith
handle_call_action-Keeps now unknown w o = (refl, o)

pub hangup_call-Keeps :
    (api : Command → Option _) (now : ℤ) (cause : String)
    → Keeps (hangup_call api now cause false [])
unfolding hangup_call set_hangup
hangup_call-Keeps api now cause w o = ground arith

-- A read of the cache.
pub get_call-IsSound :
    (now : ℤ) (id : String) (s : Manager) → IsSound s → IsSound (get_call now id s).0
unfolding get_call
get_call-IsSound now id s v = record {
  cache = get-Inv now s.calls id v.cache;
  room = omega (arith, get_size now s.calls id, v.room);
  held = λ later k p h. v.held later k p (ground (arith, get-get now later s.calls id k v.cache));
  below = v.below;
}

saved :
    (now later : ℤ) (s : Manager) (id k : String) (p q : ℕ)
    → IsSound s
    → (get later (save_to_cache_call now id p s).calls k).1 ≡ some q
    → ((get later s.calls k).1 ≡ some q) ⊎ ((id ≡ k) × (p ≡ q))
unfolding save_to_cache_call add_with_default_expires
saved now later s id k p q v h =
    ground
      (arith, get-add now later s.calls id p s.calls.default_expiry k v.cache v.room, ==s_iff id k)

pub save-IsSound :
    (now : ℤ) (id : String) (p : ℕ) (c : Call) (s : Manager)
    → IsSound s
    → lookup p s.heap ≡ some c
    → c.id ≡ id
    → IsSound (save_to_cache_call now id p s)
unfolding save_to_cache_call add_with_default_expires
save-IsSound now id p c s v there same = record {
  cache = add-Inv now s.calls id p s.calls.default_expiry v.cache;
  room = omega (arith, add_size now s.calls id p s.calls.default_expiry, v.room);
  held = λ later k q h.
      elim (saved now later s id k p q v h)
        as (λ _. (d : Call) × (lookup q s.heap ≡ some d) × (d.id ≡ k)) [
          | inl old ↦ v.held later k q old
          | inr (e, f) ↦ (c, subst (λ x. lookup x s.heap ≡ some c) f there, same ∙ e)
        ];
  below = v.below;
}

remove-IsSound : (id : String) (s : Manager) → IsSound s → IsSound (remove_from_cache_call id s)
unfolding remove_from_cache_call
remove-IsSound id s v = record {
  cache = remove-Inv s.calls id v.cache;
  room = omega (arith, remove_size s.calls id, v.room);
  held = λ later k p h. v.held later k p (ground (arith, get-remove later s.calls id k v.cache));
  below = v.below;
}

abbrev or_id : Call → Option Call → String
or_id c none = c.id
or_id c (some d) = d.id

-- Sound, and this call stands at this address.
pub record Holds (p : ℕ) (c : Call) (s : Manager) : Type 0 where
  pub sound : IsSound s
  pub stands : lookup p s.heap ≡ some c

pub sent-IsSound :
    (x : String × Effect) (s : Manager) → IsSound s → IsSound (record s { sent = x ∷ s.sent })
sent-IsSound x s v = record { cache = v.cache; room = v.room; held = v.held; below = v.below }

sent-Holds :
    (p : ℕ) (c : Call) (x : String × Effect) (s : Manager)
    → Holds p c s
    → Holds p c (record s { sent = x ∷ s.sent })
sent-Holds p c x s h = record { sound = sent-IsSound x s h.sound; stands = h.stands }

effect-Holds :
    (now : ℤ) (p : ℕ) (name : String) (c : Call) (e : Effect) (s : Manager)
    → Own c.id (e ∷ [])
    → Holds p c s
    → Holds p c (apply_effect now p name e s)
unfolding apply_effect save_to_cache_call remove_from_cache_call
effect-Holds now p name c (save_to_cache j) s o h = record {
  sound = save-IsSound now j p c s h.sound h.stands (sym o.0);
  stands = h.stands;
}
effect-Holds now p name c (remove_from_cache j) s o h = record {
  sound = remove-IsSound j s h.sound;
  stands = h.stands;
}
effect-Holds now p name c (command x) s o h = sent-Holds p c (name, command x) s h
effect-Holds now p name c (originate x) s o h = sent-Holds p c (name, originate x) s h

Own-head :
    (id : String) (e : Effect) (es : List Effect) → Own id (e ∷ es) → Own id (e ∷ []) × Own id es
Own-head id (save_to_cache j) es o = ((o.0, tt), o.1)
Own-head id (remove_from_cache j) es o = (tt, o)
Own-head id (command c) es o = (tt, o)
Own-head id (originate r) es o = (tt, o)

effects-Holds :
    (now : ℤ) (p : ℕ) (name : String) (c : Call) (es : List Effect) (s : Manager)
    → Own c.id es
    → Holds p c s
    → Holds p c (apply_effects now p name es s)
unfolding apply_effects
effects-Holds now p name c [] s o h = h
effects-Holds now p name c (e ∷ es) s o h =
    let (head, rest) = Own-head c.id e es o in
    effect-Holds now p name c e (apply_effects now p name es s) head
      (effects-Holds now p name c es s rest h)

-- A call that is written at an address is the only one that changes.
read_back : (p : ℕ) (d : Call) (heap : List (ℕ × Call)) → lookup p (insert p d heap) ≡ some d
read_back p d heap = ground (arith, lookup-insert p p d heap, ==_iff p p)

written :
    (p q : ℕ) (c d x : Call) (heap : List (ℕ × Call))
    → lookup p heap ≡ some c
    → lookup q heap ≡ some x
    → d.id ≡ c.id
    → (y : Call) × (lookup q (insert p d heap) ≡ some y) × (y.id ≡ x.id)
written p q c d x heap there l same = elim (Bool-cases (p == q)) [
  | inl e ↦ (
    d,
    ground (arith, lookup-insert p q d heap),
    same
        ∙ ap (or_id c) (sym there ∙ subst (λ r. lookup r heap ≡ some x) (sym ((==_iff p q).0 e)) l),
  )
  | inr e ↦ (x, ground (arith, lookup-insert p q d heap), refl)
]

unwritten :
    (p q : ℕ) (c d x : Call) (heap : List (ℕ × Call))
    → lookup p heap ≡ some c
    → lookup q (insert p d heap) ≡ some x
    → (y : Call) × (lookup q heap ≡ some y)
unwritten p q c d x heap there l = elim (Bool-cases (p == q)) [
  | inl e ↦ (c, subst (λ r. lookup r heap ≡ some c) ((==_iff p q).0 e) there)
  | inr e ↦ (x, ground (arith, lookup-insert p q d heap))
]

store-Holds :
    (p : ℕ) (c d : Call) (s : Manager)
    → Holds p c s
    → d.id ≡ c.id
    → Holds p d (record s { heap = insert p d s.heap })
store-Holds p c d s h same = record {
  sound = record {
    cache = h.sound.cache;
    room = h.sound.room;
    held = λ now k q l.
        (let (x, there, id) = h.sound.held now k q l in
          let (y, now_there, same_id) = written p q c d x s.heap h.stands there same in
          (y, now_there, same_id ∙ id));
    below = λ q x l.
        (let (y, there) = unwritten p q c d x s.heap h.stands l in h.sound.below q y there);
  };
  stands = read_back p d s.heap;
}

-- A new call is written at a new address.
pub allocate-Holds : (c : Call) (s : Manager) → IsSound s → Holds s.next c (allocate c s)
unfolding allocate
allocate-Holds c s v = record {
  sound = record {
    cache = v.cache;
    room = v.room;
    held = λ now k q l.
        (let (x, there, id) = v.held now k q l in
          (
            x,
            ground (arith, lookup-insert s.next q c s.heap, ==_iff s.next q, v.below q x there),
            id,
          ));
    below = λ q x l. elim (Bool-cases (s.next == q)) [
      | inl e ↦ omega (arith, (==_iff s.next q).0 e)
      | inr e ↦ omega (arith, v.below q x (ground (arith, lookup-insert s.next q c s.heap)))
    ];
  };
  stands = read_back s.next c s.heap;
}

-- A method returns into a sound manager.
abbrev pub Sound : {A : Type 0} → Result A → Type 0
Sound (returns a s) = IsSound s
Sound (faults e) = Unit

finish-Sound :
    {A : Type 0}
    → (now : ℤ) (p : ℕ) (c : Call) (o : Outcome A) (s : Manager) → Holds p c s
    → OnDone (λ u. (u.call.id ≡ c.id) × Own c.id u.effects) o
    → Sound (finish now p o s)
unfolding finish
finish-Sound now p c (fault f) s h k = tt
finish-Sound now p c (done a w) s h k =
    (effects-Holds now p w.call.api_name w.call w.effects
      (record s { heap = insert p w.call s.heap }) (subst (λ i. Own i w.effects) (sym k.0) k.1)
      (store-Holds p c w.call s h k.0)).sound

pub run_method-Sound :
    {A : Type 0}
    → (now : ℤ) (p : ℕ) (m : M A) (s : Manager) → Keeps m
    → IsSound s
    → Sound (run_method now p m s)
unfolding run_method
run_method-Sound now p m s k v = elim (Option-cases (lookup p s.heap)) [
  | inl miss ↦ rw (miss, run_method) tt
  | inr (c, hit) ↦
      rw (hit, run_method)
        (finish-Sound now p c (m (record { call = c; effects = [] })) s
          (record { sound = v; stands = hit }) (k (record { call = c; effects = [] }) tt))
]

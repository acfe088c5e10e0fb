-- ===== src/Lru/Order.antt =====
-- Which entry an addition to a cache of utils/lru.go evicts, and what `Get` answers after it.
use call_center.Prelude.{
  Bool-cases, ◌+◌, ◌<◌, ◌≤◌, ◌≡◌, refl, ◌∙◌, Bool, false, Option, none, some, List, [], ◌∷◌, leb,
  if◌then◌else◌, length, arith, Option-cases, inl, inr, EqKey, dec_lt,
}
use call_center.Prelude.Int.{ℤ}
use call_center.Lru.Elements.{Element, last?, deref-last?, last?_nonempty}
use call_center.Lru.Invariant.{
  Inv, find-Linked, find-none-Linked, push_new-Linked, evict_over, evict_within,
}
use call_center.Lru.Answers.{get-answer}
use call_center.Lru.Find.{find-remove_element, find-refresh, find-push_new}
use call_center.Lru.{
  Cache, find, remove_element, refresh, push_new, evict, get, is_expired, deadline,
  add_with_expires_in_secs,
}

module _ {ℓ κ} {K : Type ℓ} {V : Type κ} ⦃eq : EqKey K⦄ where
  open eq use {same, same_iff}

  -- The element that an addition evicts: the last one, if the key is new and the cache full.
  unfoldable pub victim? : Cache K V → K → Option (Element K V)
  victim? c k = elim (find c k) [
    | some _ ↦ none
    | none ↦ if leb c.size (length c.evict_list) then last? c.evict_list else none
  ]

  abbrev pub is_victim : Option (Element K V) → K → Bool
  is_victim none j = false
  is_victim (some e) j = same e.entry.key j

  victim?_hit : (c : Cache K V) (k : K) (e : Element K V) → find c k ≡ some e → victim? c k ≡ none
  unfolding victim?
  victim?_hit c k e h = ground arith

  victim?_room : (c : Cache K V) (k : K) → length c.evict_list < c.size → victim? c k ≡ none
  unfolding victim?
  victim?_room c k h = ground arith

  victim?_full :
      (c : Cache K V) (k : K)
      → find c k ≡ none
      → c.size ≤ length c.evict_list
      → victim? c k ≡ last? c.evict_list
  unfolding victim?
  victim?_full c k h b = ground arith

  last?-cons :
      (x : Element K V) (es : List (Element K V)) → 0 < length es → last? (x ∷ es) ≡ last? es
  unfolding last?
  last?-cons x [] h = absurd (omega arith)
  last?-cons x (y ∷ es) h = refl

  last?-push_new :
      (c : Cache K V) (k : K) (value : V) (expire : ℤ)
      → 0 < length c.evict_list
      → last? (push_new c k value expire).evict_list ≡ last? c.evict_list
  unfolding push_new
  last?-push_new c k value expire h = last?-cons _ c.evict_list h

  push_new-length :
      (c : Cache K V) (k : K) (value : V) (expire : ℤ)
      → (length (push_new c k value expire).evict_list ≡ length c.evict_list + 1)
        × ((push_new c k value expire).size ≡ c.size)
  unfolding push_new
  push_new-length c k value expire = omega arith

  pub find-evict :
      (c : Cache K V) (k : K) (value : V) (expire : ℤ) (j : K)
      → Inv c
      → 0 < c.size
      → find c k ≡ none
      → find (evict (push_new c k value expire)) j
        ≡ (if is_victim (victim? c k) j then none else find (push_new c k value expire) j)
  find-evict c k value expire j v room miss =
      let d = push_new c k value expire in
      let grown = push_new-length c k value expire in
      let linked = push_new-Linked c k value expire v.linked (find-none-Linked c k v.linked miss) in
      elim (dec_lt (length c.evict_list) c.size) [
        | yes free ↦ rw (victim?_room c k free, evict_within d (omega (arith, grown))) refl
        | no full ↦
            let (e, l) = last?_nonempty c.evict_list (omega arith) in
            let l' = last?-push_new c k value expire (omega arith) ∙ l in
            rw (victim?_full c k miss (omega arith), l, evict_over d e (omega (arith, grown)) l')
              (find-remove_element d e j linked (deref-last? d.evict_list e linked.distinct l'))
      ]

  -- A new key is not the victim of its own addition.
  victim?-other : (c : Cache K V) (k : K) → Inv c → is_victim (victim? c k) k ≡ false
  unfolding victim? find
  victim?-other c k v = elim (Option-cases (last? c.evict_list)) [
    | inl l ↦ ground arith
    | inr (e, l) ↦
        let there = deref-last? c.evict_list e v.linked.distinct l in
        ground (arith, v.linked.indexed e.ptr e there, same_iff e.entry.key k)
  ]

  pub add_generation :
      (now : ℤ) (c : Cache K V) (k : K) (value : V) (ttl : ℤ)
      → (add_with_expires_in_secs now c k value ttl).current_generation ≡ c.current_generation
  unfolding add_with_expires_in_secs evict remove_element refresh push_new
  add_generation now c k value ttl = ground arith

  add_new :
      (now : ℤ) (c : Cache K V) (k : K) (value : V) (ttl : ℤ)
      → find c k ≡ none
      → add_with_expires_in_secs now c k value ttl ≡ evict (push_new c k value (deadline now ttl))
  unfolding add_with_expires_in_secs
  add_new now c k value ttl h = ground arith

  add_old :
      (now : ℤ) (c : Cache K V) (k : K) (value : V) (ttl : ℤ) (e : Element K V)
      → find c k ≡ some e
      → add_with_expires_in_secs now c k value ttl ≡ refresh c e value (deadline now ttl)
  unfolding add_with_expires_in_secs
  add_old now c k value ttl e h = ground arith

  -- After an addition to a cache with room for an entry: the added key has its value unless that is
  -- expired by then, the victim's key has none, and each other key has what it had.
  pub get-add :
      (now later : ℤ) (c : Cache K V) (k : K) (value : V) (ttl : ℤ) (j : K)
      → Inv c
      → 0 < c.size
      → (get later (add_with_expires_in_secs now c k value ttl) j).1 ≡ (
          if same k j
          then if is_expired later (deadline now ttl) then none else some value
          else if is_victim (victim? c k) j
          then none
          else (get later c j).1)
  unfolding find deadline victim?
  get-add now later c k value ttl j v room = elim (Option-cases (find c k)) [
    | inl miss ↦
        rw
          (
            get-answer later (add_with_expires_in_secs now c k value ttl) j,
            get-answer later c j,
            add_generation now c k value ttl,
            add_new now c k value ttl miss,
            find-evict c k value (deadline now ttl) j v room miss,
            find-push_new c k value (deadline now ttl) j v.linked,
          )
          (elim (Bool-cases (same k j)) [
            | inl s ↦ ground (arith, victim?-other c k v, same_iff k j)
            | inr s ↦ ground (arith, s)
          ])
    | inr (e, hit) ↦
        let (there, s) = find-Linked c k e v.linked hit in
        rw
          (
            get-answer later (add_with_expires_in_secs now c k value ttl) j,
            get-answer later c j,
            add_generation now c k value ttl,
            add_old now c k value ttl e hit,
            find-refresh c e value (deadline now ttl) j v.linked there,
            victim?_hit c k e hit,
            s,
          )
          (ground arith)
  ]

-- ===== src/Lru/Lasting.antt =====
-- utils/lru.go: a cache whose entries never expire, as one is that has no default expiry and is never
-- purged. It forgets an entry only when it is full, or told to.
use call_center.Prelude.{
  ◌+◌, ◌<◌, ◌≤◌, ◌≡◌, refl, sym, ap, subst, dec_lt, ◌∙◌, true, false, none, some, Option-cases, inl,
  inr, arith, length, EqKey,
}
use call_center.Prelude.Int.{ℤ, pos, ltb_ℤ}
use call_center.Lru.Elements.{Element, has_generation, move_to_front, length-unlink}
use call_center.Lru.Invariant.{Inv, find-Linked, add-Inv, length-remove_element, evict_within}
use call_center.Lru.Access.{get-Inv, remove-Inv}
use call_center.Lru.Answers.{get-answer, find-get, find-remove, get_generation, remove_generation}
use call_center.Lru.Sizes.{add_size, add_expiry}
use call_center.Lru.Find.{find-push_new}
use call_center.Lru.Order.{find-evict, add_generation}
use call_center.Lru.{
  Cache, find, get, remove, add_with_expires_in_secs, push_new, evict, add_with_default_expires,
  deadline, is_stale,
}

module _ {ℓ κ} {K : Type ℓ} {V : Type κ} ⦃eq : EqKey K⦄ where
  open eq use {same, same_iff}

  abbrev pub Lasts : Cache K V → Element K V → Type 0
  Lasts c e =
      (ltb_ℤ (pos 0) e.entry.expire_at_secs ≡ false)
      × (has_generation c.current_generation e ≡ true)

  pub record Lasting (c : Cache K V) : Type (ℓ ⊔ κ) where
    pub inv : Inv c
    pub lasts : (k : K) (e : Element K V) → find c k ≡ some e → Lasts c e

  never_stale : (now : ℤ) (c : Cache K V) (e : Element K V) → Lasts c e → is_stale now c e ≡ false
  never_stale now c e l = ground (arith, l)

  -- What a read answers: all that is there.
  pub get-find :
      (now : ℤ) (c : Cache K V) (k : K) → Lasting c → (get now c k).1 ≡ none → find c k ≡ none
  get-find now c k v h = elim (Option-cases (find c k)) [
    | inl miss ↦ miss
    | inr (e, hit) ↦ ground (arith, get-answer now c k, v.lasts k e hit)
  ]

  get-hit :
      (now : ℤ) (c : Cache K V) (k : K) (e : Element K V)
      → find c k ≡ some e
      → Lasts c e
      → get now c k ≡ (record c { evict_list = move_to_front e c.evict_list }, some e.entry.value)
  unfolding get
  get-hit now c k e h l = rw (h, get) (rw (never_stale now c e l) refl)

  get-miss : (now : ℤ) (c : Cache K V) (k : K) → find c k ≡ none → get now c k ≡ (c, none)
  unfolding get
  get-miss now c k h = rw (h, get) refl

  front_length :
      (c : Cache K V) (k : K) (e : Element K V)
      → Inv c
      → find c k ≡ some e
      → length (move_to_front e c.evict_list) ≡ length c.evict_list
  unfolding move_to_front
  front_length c k e v h =
      omega (arith, length-unlink e.ptr c.evict_list e (find-Linked c k e v.linked h).0)

  -- A read forgets nothing.
  pub length-get :
      (now : ℤ) (c : Cache K V) (k : K)
      → Lasting c
      → length (get now c k).0.evict_list ≡ length c.evict_list
  length-get now c k v = elim (Option-cases (find c k)) [
    | inl miss ↦ rw (get-miss now c k miss) refl
    | inr (e, hit) ↦ rw (get-hit now c k e hit (v.lasts k e hit)) (front_length c k e v.inv hit)
  ]

  pub get-Lasting : (now : ℤ) (c : Cache K V) (k : K) → Lasting c → Lasting (get now c k).0
  get-Lasting now c k v = record {
    inv = get-Inv now c k v.inv;
    lasts = λ j e h. ground (arith, find-get now c k j v.inv, get_generation now c k, v.lasts j e);
  }

  pub remove-Lasting : (c : Cache K V) (k : K) → Lasting c → Lasting (remove c k)
  remove-Lasting c k v = record {
    inv = remove-Inv c k v.inv;
    lasts = λ j e h. ground (arith, find-remove c k j v.inv, remove_generation c k, v.lasts j e);
  }

  -- A removal forgets one entry.
  pub length-remove :
      (c : Cache K V) (k : K) (e : Element K V)
      → Lasting c
      → find c k ≡ some e
      → length (remove c k).evict_list + 1 ≡ length c.evict_list
  unfolding remove
  length-remove c k e v h =
      rw (h, remove) (omega (arith, length-remove_element c e (find-Linked c k e v.inv.linked h).0))

  add-new :
      (now : ℤ) (c : Cache K V) (k : K) (value : V)
      → find c k ≡ none
      → add_with_expires_in_secs now c k value (pos 0) ≡ evict (push_new c k value (pos 0))
  unfolding add_with_expires_in_secs deadline
  add-new now c k value h = rw (h, add_with_expires_in_secs) refl

  -- A new entry is one more, while there is room.
  pub add_length :
      (now : ℤ) (c : Cache K V) (k : K) (value : V)
      → find c k ≡ none
      → length c.evict_list < c.size
      → length (add_with_expires_in_secs now c k value (pos 0)).evict_list ≡ length c.evict_list + 1
  unfolding push_new
  add_length now c k value h room =
      rw (add-new now c k value h, evict_within (push_new c k value (pos 0)) (omega arith))
        (omega arith)

  found_new :
      (c : Cache K V) (k : K) (value : V) (j : K) (e : Element K V)
      → Lasting c
      → 0 < c.size
      → find c k ≡ none
      → find (evict (push_new c k value (pos 0))) j ≡ some e
      → Lasts c e
  found_new c k value j e v room h hit = ground (
    arith,
    find-evict c k value (pos 0) j v.inv room h,
    find-push_new c k value (pos 0) j v.inv.linked,
    v.lasts j e,
  )

  pub add-Lasting :
      (now : ℤ) (c : Cache K V) (k : K) (value : V)
      → Lasting c
      → 0 < c.size
      → find c k ≡ none
      → Lasting (add_with_expires_in_secs now c k value (pos 0))
  add-Lasting now c k value v room h = record {
    inv = add-Inv now c k value (pos 0) v.inv;
    lasts = λ j e hit.
        (let l =
            found_new c k value j e v room h
              (sym (ap (λ d. find d j) (add-new now c k value h)) ∙ hit) in
          (l.0, rw (add_generation now c k value (pos 0)) l.1));
  }

  -- What a new key does to a cache without an expiry.
  pub record Added (c d : Cache K V) : Type (ℓ ⊔ κ) where
    pub lasting : Lasting d
    pub same_size : d.size ≡ c.size
    pub same_expiry : d.default_expiry ≡ c.default_expiry
    pub at_most : length d.evict_list ≤ length c.evict_list + 1
    pub one_more : length c.evict_list < c.size → length d.evict_list ≡ length c.evict_list + 1

  Added-never :
      (now : ℤ) (c : Cache K V) (k : K) (value : V)
      → Lasting c
      → 0 < c.size
      → find c k ≡ none
      → Added c (add_with_expires_in_secs now c k value (pos 0))
  Added-never now c k value v room h =
      let d = add_with_expires_in_secs now c k value (pos 0) in
      let w = add-Lasting now c k value v room h in
      record {
        lasting = w;
        same_size = add_size now c k value (pos 0);
        same_expiry = add_expiry now c k value (pos 0);
        at_most = elim (dec_lt (length c.evict_list) c.size) [
          | yes free ↦ omega (arith, add_length now c k value h free)
          | no full ↦ omega (arith, w.inv.bounded, add_size now c k value (pos 0))
        ];
        one_more = add_length now c k value h;
      }

  pub add-Added :
      (now : ℤ) (c : Cache K V) (k : K) (value : V)
      → Lasting c
      → 0 < c.size
      → c.default_expiry ≡ pos 0
      → find c k ≡ none
      → Added c (add_with_default_expires now c k value)
  unfolding add_with_default_expires
  add-Added now c k value v room never h =
      subst (λ t. Added c (add_with_expires_in_secs now c k value t)) (sym never)
        (Added-never now c k value v room h)

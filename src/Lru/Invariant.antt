-- ===== src/Lru/Invariant.antt =====
-- The invariant of a cache (utils/lru.go, model/lru.go) between two calls, and the additions.
use call_center.Prelude.{
  ℕ, suc, ◌+◌, ◌%◌, ◌^◌, ◌<◌, ◌≤◌, ◌≡◌, refl, ap, sym, false, none, some, ◌==◌, length, arith,
  Bool-cases, dec_lt, Option-cases, inl, inr, EqKey,
}
use call_center.Prelude.Int.{ℤ, pos, ◌+ℤ◌, +ℤ_parts, eq_of_parts}
use call_center.Prelude.StringMap.{lookup, lookup-insert}
use call_center.Lru.Elements.{
  Element, deref, move_to_front, last?, count, deref_ptr, length-store, length-unlink, Aged-suc,
  count-Aged, deref-last?, last?_nonempty,
}
use call_center.Lru.Linked.{Linked, remove_element-Linked, refresh-Linked}
use call_center.Lru.{
  Cache, find, remove_element, refresh, push_new, evict, new_lru_with_params, purge,
  add_with_expires_in_secs, deadline,
}

module _ {ℓ κ} {K : Type ℓ} {V : Type κ} ⦃eq : EqKey K⦄ where
  open eq use {same, same_iff}

  -- What `find` returns is an element of the list, under its own key.
  pub find-Linked :
      (c : Cache K V) (k : K) (e : Element K V)
      → Linked c
      → find c k ≡ some e
      → (deref e.ptr c.evict_list ≡ some e) × (e.entry.key ≡ k)
  unfolding find
  find-Linked c k e v h = elim (Option-cases (lookup k c.items)) [
    | inl l ↦ ground arith
    | inr (p, l) ↦ let (f, d, s) = v.present k p l in ground (arith, deref_ptr p c.evict_list f d)
  ]

  pub find-none-Linked :
      (c : Cache K V) (k : K) → Linked c → find c k ≡ none → lookup k c.items ≡ none
  unfolding find
  find-none-Linked c k v h = elim (Option-cases (lookup k c.items)) [
    | inl l ↦ l
    | inr (p, l) ↦ let (f, d, s) = v.present k p l in ground arith
  ]

  push_new_present :
      (c : Cache K V) (k : K) (value : V) (expire : ℤ)
      → Linked c
      → (j : K) (p : ℕ) → lookup j (push_new c k value expire).items ≡ some p
      → (e : Element K V) × (deref p (push_new c k value expire).evict_list ≡ some e)
        × (e.entry.key ≡ j)
  unfolding push_new deref
  push_new_present c k value expire v j p l = elim (Bool-cases (same k j)) [
    | inl hit ↦ (
      record {
        ptr = c.next_ptr;
        entry = record {
          key = k;
          value = value;
          expire_at_secs = expire;
          generation = c.current_generation;
        };
      },
      ground (arith, lookup-insert k j c.next_ptr c.items),
      (same_iff k j).0 hit,
    )
    | inr miss ↦
        let old : lookup j c.items ≡ some p =
          ground (arith, lookup-insert k j c.next_ptr c.items) in
        let (f, d, s) = v.present j p old in
        let apart : (c.next_ptr == p) ≡ false = ground (arith, v.fresh p) in (f, rw apart d, s)
  ]

  pub push_new-Linked :
      (c : Cache K V) (k : K) (value : V) (expire : ℤ)
      → Linked c
      → lookup k c.items ≡ none
      → Linked (push_new c k value expire)
  unfolding push_new deref
  push_new-Linked c k value expire v h = record {
    distinct = (v.fresh c.next_ptr (omega arith), v.distinct);
    fresh = λ p b. ground (arith, v.fresh p);
    present = push_new_present c k value expire v;
    indexed = λ p f d. ground (
      arith,
      v.indexed p f,
      lookup-insert k f.entry.key c.next_ptr c.items,
      same_iff k f.entry.key,
    );
    counted = ground (
      arith,
      +ℤ_parts c.len (pos 1),
      eq_of_parts (c.len +ℤ pos 1) (pos (1 + count c.current_generation c.evict_list)),
    );
    aged = (omega arith, v.aged);
  }

  -- The invariant between two calls.
  pub record Inv (c : Cache K V) : Type (ℓ ⊔ κ) where
    pub linked : Linked c
    pub bounded : length c.evict_list ≤ c.size

  pub evict_over :
      (c : Cache K V) (e : Element K V)
      → c.size < length c.evict_list
      → last? c.evict_list ≡ some e
      → evict c ≡ remove_element c e
  unfolding evict
  evict_over c e h l = ground arith

  pub evict_within : (c : Cache K V) → length c.evict_list ≤ c.size → evict c ≡ c
  unfolding evict
  evict_within c h = ground arith

  pub length-remove_element :
      (c : Cache K V) (e : Element K V)
      → deref e.ptr c.evict_list ≡ some e
      → length c.evict_list ≡ suc (length (remove_element c e).evict_list)
  unfolding remove_element
  length-remove_element c e h = length-unlink e.ptr c.evict_list e h

  remove_element_size : (c : Cache K V) (e : Element K V) → (remove_element c e).size ≡ c.size
  unfolding remove_element
  remove_element_size c e = refl

  pub remove_element-Inv :
      (c : Cache K V) (e : Element K V)
      → Linked c
      → length c.evict_list ≤ c.size + 1
      → deref e.ptr c.evict_list ≡ some e
      → Inv (remove_element c e)
  remove_element-Inv c e v b h = record {
    linked = remove_element-Linked c e v h;
    bounded = omega (arith, length-remove_element c e h, remove_element_size c e);
  }

  pub evict-Inv : (c : Cache K V) → Linked c → length c.evict_list ≤ c.size + 1 → Inv (evict c)
  evict-Inv c v b = elim (dec_lt c.size (length c.evict_list)) [
    | yes over ↦
        let (e, l) = last?_nonempty c.evict_list (omega arith) in
        rw (evict_over c e over l)
          (remove_element-Inv c e v b (deref-last? c.evict_list e v.distinct l))
    | no within ↦ rw (evict_within c (omega arith)) (record { linked = v; bounded = omega arith })
  ]

  -- A new cache satisfies the invariant.
  pub new_lru-Inv : (size : ℕ) (ttl : ℤ) → Inv (new_lru_with_params size ttl)
  unfolding new_lru_with_params deref lookup
  new_lru-Inv size ttl = record {
    linked = record {
      distinct = tt;
      fresh = λ p b. refl;
      present = λ k p l. cc;
      indexed = λ p e d. cc;
      counted = refl;
      aged = tt;
    };
    bounded = omega arith;
  }

  -- `Purge`, while the counter of generations does not wrap.
  pub purge-Inv : (c : Cache K V) → c.current_generation + 1 < 2 ^ 64 → Inv c → Inv (purge c)
  unfolding purge
  purge-Inv c w v =
      let next : (c.current_generation + 1) % 2 ^ 64 ≡ c.current_generation + 1 = omega arith in
      rw next (record {
        linked = record {
          distinct = v.linked.distinct;
          fresh = v.linked.fresh;
          present = v.linked.present;
          indexed = v.linked.indexed;
          counted = ap pos (sym (count-Aged c.current_generation c.evict_list v.linked.aged));
          aged = Aged-suc c.current_generation c.evict_list v.linked.aged;
        };
        bounded = v.bounded;
      })

  refresh-Inv :
      (c : Cache K V) (e : Element K V) (value : V) (expire : ℤ)
      → Inv c
      → deref e.ptr c.evict_list ≡ some e
      → Inv (refresh c e value expire)
  unfolding refresh move_to_front
  refresh-Inv c e value expire v h = record {
    linked = refresh-Linked c e value expire v.linked h;
    bounded = omega (arith, length-unlink e.ptr c.evict_list e h, length-store {ℓ, κ}, v.bounded);
  }

  push_new-bounded :
      (c : Cache K V) (k : K) (value : V) (expire : ℤ)
      → Inv c
      → length (push_new c k value expire).evict_list ≤ (push_new c k value expire).size + 1
  unfolding push_new
  push_new-bounded c k value expire v = omega (arith, v.bounded)

  -- An addition keeps the invariant, on both branches and with the eviction.
  pub add-Inv :
      (now : ℤ) (c : Cache K V) (k : K) (value : V) (ttl : ℤ)
      → Inv c
      → Inv (add_with_expires_in_secs now c k value ttl)
  unfolding add_with_expires_in_secs
  add-Inv now c k value ttl v = elim (Option-cases (find c k)) [
    | inl fresh ↦
        rw (fresh, add_with_expires_in_secs)
          (evict-Inv (push_new c k value (deadline now ttl))
            (push_new-Linked c k value (deadline now ttl) v.linked
              (find-none-Linked c k v.linked fresh))
            (push_new-bounded c k value (deadline now ttl) v))
    | inr (e, old) ↦
        rw (old, add_with_expires_in_secs)
          (refresh-Inv c e value (deadline now ttl) v (find-Linked c k e v.linked old).0)
  ]

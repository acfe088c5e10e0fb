-- ===== src/Lru/Find.antt =====
-- What `find` sees after each write to a cache of utils/lru.go.
use call_center.Prelude.{
  ℕ, ◌≡◌, ◌∙◌, false, none, some, ◌==◌, if◌then◌else◌, arith, Bool-cases, Option-cases, inl, inr,
  EqKey,
}
use call_center.Prelude.Int.{ℤ}
use call_center.Prelude.StringMap.{lookup, lookup-insert, lookup-delete}
use call_center.Lru.Elements.{Element, deref, move_to_front, deref-unlink, deref-store}
use call_center.Lru.Linked.{Linked, deref-move_to_front}
use call_center.Lru.{Cache, find, remove_element, refresh, push_new}

module _ {ℓ κ} {K : Type ℓ} {V : Type κ} ⦃eq : EqKey K⦄ where
  open eq use {same, same_iff}

  -- Two keys with one pointer are one key.
  pointer_key :
      (c : Cache K V) (j : K) (p : ℕ) (e : Element K V)
      → Linked c
      → lookup j c.items ≡ some p
      → deref p c.evict_list ≡ some e
      → e.entry.key ≡ j
  pointer_key c j p e v l d = let (f, d', s) = v.present j p l in ground arith

  pub find-remove_element :
      (c : Cache K V) (e : Element K V) (j : K)
      → Linked c
      → deref e.ptr c.evict_list ≡ some e
      → find (remove_element c e) j ≡ (if same e.entry.key j then none else find c j)
  unfolding find remove_element
  find-remove_element c e j v h = elim (Bool-cases (same e.entry.key j)) [
    | inl hit ↦ ground (arith, lookup-delete e.entry.key j c.items)
    | inr miss ↦ elim (Option-cases (lookup j c.items)) [
      | inl l ↦ ground (arith, lookup-delete e.entry.key j c.items)
      | inr (p, l) ↦
          let (f, d, s) = v.present j p l in
          ground (
            arith,
            lookup-delete e.entry.key j c.items,
            deref-unlink e.ptr p c.evict_list v.distinct,
            same_iff e.entry.key j,
          )
    ]
  ]

  pub find-move_to_front :
      (c : Cache K V) (e : Element K V) (j : K)
      → Linked c
      → deref e.ptr c.evict_list ≡ some e
      → find (record c { evict_list = move_to_front e c.evict_list }) j ≡ find c j
  unfolding find
  find-move_to_front c e j v h = elim (Option-cases (lookup j c.items)) [
    | inl l ↦ ground arith
    | inr (p, l) ↦ ground (arith, deref-move_to_front e p c.evict_list v.distinct h)
  ]

  pub find-refresh :
      (c : Cache K V) (e : Element K V) (value : V) (expire : ℤ) (j : K)
      → Linked c
      → deref e.ptr c.evict_list ≡ some e
      → find (refresh c e value expire) j ≡ (
          if same e.entry.key j
          then some (record e {
            entry = record e.entry {
              value = value;
              expire_at_secs = expire;
              generation = c.current_generation;
            };
          })
          else find c j)
  unfolding find refresh
  find-refresh c e value expire j v h = elim (Option-cases (lookup j c.items)) [
    | inl l ↦ ground (arith, same_iff e.entry.key j, v.indexed e.ptr e h)
    | inr (p, l) ↦
        let (f, d, s) = v.present j p l in
        ground (
          arith,
          same_iff e.entry.key j,
          v.indexed e.ptr e h,
          deref-move_to_front e p c.evict_list v.distinct h,
          deref-store e.ptr p
              (record e.entry {
                value = value;
                expire_at_secs = expire;
                generation = c.current_generation;
              })
              (move_to_front e c.evict_list) e
              (deref-move_to_front e e.ptr c.evict_list v.distinct h ∙ h),
        )
  ]

  pub find-push_new :
      (c : Cache K V) (k : K) (value : V) (expire : ℤ) (j : K)
      → Linked c
      → find (push_new c k value expire) j ≡ (
          if same k j
          then some (record {
            ptr = c.next_ptr;
            entry = record {
              key = k;
              value = value;
              expire_at_secs = expire;
              generation = c.current_generation;
            };
          })
          else find c j)
  unfolding find push_new deref
  find-push_new c k value expire j v = elim (Bool-cases (same k j)) [
    | inl hit ↦ ground (arith, lookup-insert k j c.next_ptr c.items)
    | inr miss ↦ elim (Option-cases (lookup j c.items)) [
      | inl l ↦ ground (arith, lookup-insert k j c.next_ptr c.items)
      | inr (p, l) ↦
          let (f, d, s) = v.present j p l in
          let apart : (c.next_ptr == p) ≡ false = ground (arith, v.fresh p) in
          ground (arith, apart, lookup-insert k j c.next_ptr c.items)
    ]
  ]

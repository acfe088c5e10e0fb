-- ===== src/Lru/Linked.antt =====
-- The map and the list of a cache (utils/lru.go, model/lru.go) hold the same entries, and `len`
-- counts those of the current generation: what the writes to the list do to that.
use call_center.Prelude.{
  ℕ, ◌≤◌, ◌≡◌, refl, ap, ◌∙◌, none, some, List, ◌==◌, if◌then◌else◌, arith, EqKey,
}
use call_center.Prelude.Int.{ℤ, pos, ◌+ℤ◌, ◌-ℤ◌, -ℤ_parts, +ℤ_parts, eq_of_parts}
use call_center.Prelude.StringMap.{lookup, lookup-delete, lookup-delete-some}
use call_center.Lru.Elements.{
  Entry, Element, deref, unlink, move_to_front, store, has_generation, count, Distinct, Aged,
  deref-unlink, deref-store, deref-store-none, unlink-Distinct, store-Distinct, count-unlink,
  count-store, store-Aged, unlink-Aged, deref-Aged,
}
use call_center.Lru.{Cache, remove_element, refresh}

module _ {ℓ κ} {K : Type ℓ} {V : Type κ} ⦃eq : EqKey K⦄ where
  open eq use {same, same_iff}

  -- All but the bound on the length, which an addition breaks before it evicts.
  pub record Linked (c : Cache K V) : Type (ℓ ⊔ κ) where
    pub distinct : Distinct c.evict_list
    pub fresh : (p : ℕ) → c.next_ptr ≤ p → deref p c.evict_list ≡ none
    pub present :
        (k : K) (p : ℕ)
        → lookup k c.items ≡ some p
        → (e : Element K V) × (deref p c.evict_list ≡ some e) × (e.entry.key ≡ k)
    pub indexed :
        (p : ℕ) (e : Element K V)
        → deref p c.evict_list ≡ some e
        → lookup e.entry.key c.items ≡ some p
    pub counted : c.len ≡ pos (count c.current_generation c.evict_list)
    pub aged : Aged c.current_generation c.evict_list

  remove_element_present :
      (c : Cache K V) (e : Element K V)
      → Linked c
      → deref e.ptr c.evict_list ≡ some e
      → (k : K) (p : ℕ) → lookup k (remove_element c e).items ≡ some p
      → (f : Element K V) × (deref p (remove_element c e).evict_list ≡ some f) × (f.entry.key ≡ k)
  unfolding remove_element
  remove_element_present c e v h k p l =
      let (apart, old) = lookup-delete-some e.entry.key k p c.items l in
      let (f, d, s) = v.present k p old in
      (f, ground (arith, deref-unlink e.ptr p c.evict_list v.distinct, same_iff e.entry.key k), s)

  remove_element_indexed :
      (c : Cache K V) (e : Element K V)
      → Linked c
      → deref e.ptr c.evict_list ≡ some e
      → (p : ℕ) (f : Element K V) → deref p (remove_element c e).evict_list ≡ some f
      → lookup f.entry.key (remove_element c e).items ≡ some p
  unfolding remove_element
  remove_element_indexed c e v h p f d = ground (
    arith,
    deref-unlink e.ptr p c.evict_list v.distinct,
    v.indexed p f,
    v.indexed e.ptr e h,
    lookup-delete e.entry.key f.entry.key c.items,
    same_iff e.entry.key f.entry.key,
  )

  pub remove_element-Linked :
      (c : Cache K V) (e : Element K V)
      → Linked c
      → deref e.ptr c.evict_list ≡ some e
      → Linked (remove_element c e)
  unfolding remove_element
  remove_element-Linked c e v h = record {
    distinct = unlink-Distinct e.ptr c.evict_list v.distinct;
    fresh = λ p b. ground (arith, deref-unlink e.ptr p c.evict_list v.distinct, v.fresh p b);
    present = remove_element_present c e v h;
    indexed = remove_element_indexed c e v h;
    counted = ground (
      arith,
      -ℤ_parts c.len (pos 1),
      eq_of_parts (c.len -ℤ pos 1) (pos (count c.current_generation (unlink e.ptr c.evict_list))),
      count-unlink c.current_generation e.ptr c.evict_list e h,
    );
    aged = unlink-Aged c.current_generation e.ptr c.evict_list v.aged;
  }

  -- The list after `MoveToFront` of one of its elements.
  pub deref-move_to_front :
      (e : Element K V) (p : ℕ) (es : List (Element K V))
      → Distinct es
      → deref e.ptr es ≡ some e
      → deref p (move_to_front e es) ≡ deref p es
  unfolding move_to_front deref
  deref-move_to_front e p es d h = ground (arith, deref-unlink e.ptr p es d)

  pub move_to_front-Distinct :
      (e : Element K V) (es : List (Element K V)) → Distinct es → Distinct (move_to_front e es)
  unfolding move_to_front
  move_to_front-Distinct e es d =
      (ground (arith, deref-unlink e.ptr e.ptr es d), unlink-Distinct e.ptr es d)

  count-move_to_front :
      (g : ℕ) (e : Element K V) (es : List (Element K V))
      → deref e.ptr es ≡ some e
      → count g es ≡ count g (move_to_front e es)
  unfolding move_to_front
  count-move_to_front g e es h = ground (arith, count-unlink g e.ptr es e h)

  move_to_front-Aged :
      (g : ℕ) (e : Element K V) (es : List (Element K V))
      → deref e.ptr es ≡ some e
      → Aged g es
      → Aged g (move_to_front e es)
  unfolding move_to_front
  move_to_front-Aged g e es h a = (deref-Aged g e.ptr es e h a, unlink-Aged g e.ptr es a)

  pub move_to_front-Linked :
      (c : Cache K V) (e : Element K V)
      → Linked c
      → deref e.ptr c.evict_list ≡ some e
      → Linked (record c { evict_list = move_to_front e c.evict_list })
  move_to_front-Linked c e v h = record {
    distinct = move_to_front-Distinct e c.evict_list v.distinct;
    fresh = λ p b. rw (deref-move_to_front e p c.evict_list v.distinct h) (v.fresh p b);
    present = λ k p l. rw (deref-move_to_front e p c.evict_list v.distinct h) (v.present k p l);
    indexed = λ p f d. v.indexed p f (rw (deref-move_to_front e p c.evict_list v.distinct h) at d);
    counted =
        ground
          (arith, v.counted, ap pos (count-move_to_front c.current_generation e c.evict_list h));
    aged = move_to_front-Aged c.current_generation e c.evict_list h v.aged;
  }

  -- An assignment of the current generation to an element, at the same key.
  pub store-Linked :
      (c : Cache K V) (e : Element K V) (n : Entry K V)
      → Linked c
      → deref e.ptr c.evict_list ≡ some e
      → n.key ≡ e.entry.key
      → n.generation ≡ c.current_generation
      → Linked (record c {
        evict_list = store e.ptr n c.evict_list;
        len = if has_generation c.current_generation e then c.len else c.len +ℤ pos 1;
      })
  store-Linked c e n v h k g = record {
    distinct = store-Distinct e.ptr n c.evict_list v.distinct;
    fresh = λ p b. deref-store-none e.ptr p n c.evict_list (v.fresh p b);
    present = λ j p l.
        let (f, d, s) = v.present j p l in
        (
          if e.ptr == p then record e { entry = n } else f,
          ground (arith, deref-store e.ptr p n c.evict_list e h),
          ground arith,
        );
    indexed = λ p f d.
        ground (arith, deref-store e.ptr p n c.evict_list e h, v.indexed p f, v.indexed e.ptr e h);
    counted = ground (
      arith,
      +ℤ_parts c.len (pos 1),
      eq_of_parts (c.len +ℤ pos 1) (pos (count c.current_generation (store e.ptr n c.evict_list))),
      count-store c.current_generation e.ptr n c.evict_list e h g,
    );
    aged = store-Aged c.current_generation e.ptr n c.evict_list (omega arith) v.aged;
  }

  pub refresh-Linked :
      (c : Cache K V) (e : Element K V) (value : V) (expire : ℤ)
      → Linked c
      → deref e.ptr c.evict_list ≡ some e
      → Linked (refresh c e value expire)
  unfolding refresh
  refresh-Linked c e value expire v h =
      store-Linked (record c { evict_list = move_to_front e c.evict_list }) e
        (record e.entry {
          value = value;
          expire_at_secs = expire;
          generation = c.current_generation;
        })
        (move_to_front-Linked c e v h) (deref-move_to_front e e.ptr c.evict_list v.distinct h ∙ h)
        refl refl

-- ===== src/Lru.antt =====
-- utils/lru.go and model/lru.go: the LRU cache with expiry and generations. The list of elements is
-- `evictList`, the newest in front; an element is known by its pointer, so that `items`, which maps
-- a key to a pointer, shares the entry with the list. The clock is an argument of each call.
pub mod Elements
pub mod Linked
pub mod Invariant
pub mod Access
pub mod Find
pub mod Answers
pub mod Sizes
pub mod Lasting
pub mod Order
mod Tests
use call_center.Prelude.{
  ℕ, suc, ◌+◌, ◌%◌, ◌^◌, Bool, true, false, ◌&&◌, ◌||◌, not, Option, none, some, List, [], ◌∷◌, ltb,
  ◌==◌, if◌then◌else◌, EqKey, length,
}
use call_center.Prelude.Int.{ℤ, pos, ◌+ℤ◌, ◌-ℤ◌, ltb_ℤ, int64}
use call_center.Prelude.StringMap
use Elements.{Entry, Element, deref, unlink, move_to_front, store, last?, has_generation}

-- `size`, `len` and the expiry are Go's `int` and `int64`; a generation is an int64 that is only
-- incremented and compared, kept as its 64 bits.
pub record Cache {ℓ κ} (K : Type ℓ) (V : Type κ) : Type (ℓ ⊔ κ) where
  pub size : ℕ
  pub evict_list : List (Element K V)
  pub items : List (K × ℕ)
  pub default_expiry : ℤ
  pub current_generation : ℕ
  pub len : ℤ
  pub next_ptr : ℕ  -- the address that the next allocation gives

-- The expiry test of `Get`, and the deadline that `AddWithExpiresInSecs` stores.
abbrev pub is_expired : ℤ → ℤ → Bool
is_expired now expire_at = ltb_ℤ (pos 0) expire_at && ltb_ℤ expire_at now

unfoldable pub deadline : ℤ → ℤ → ℤ
deadline now ttl = if ltb_ℤ (pos 0) ttl then int64 (now +ℤ ttl) else ttl

module _ {ℓ κ} {K : Type ℓ} {V : Type κ} where
  unfoldable pub new_lru : ℕ → Cache K V
  new_lru size = record {
    size = size;
    evict_list = [];
    items = [];
    default_expiry = pos 0;
    current_generation = 0;
    len = pos 0;
    next_ptr = 0;
  }

  unfoldable pub new_lru_with_params : ℕ → ℤ → Cache K V
  unfolding new_lru
  new_lru_with_params size default_expiry = record (new_lru size) {
    default_expiry = default_expiry;
  }

  unfoldable pub purge : Cache K V → Cache K V
  purge c = record c { len = pos 0; current_generation = (c.current_generation + 1) % 2 ^ 64 }

module _ {ℓ κ} {K : Type ℓ} {V : Type κ} ⦃eq : EqKey K⦄ where
  -- The element that `items` holds under a key, through its pointer.
  unfoldable pub find : Cache K V → K → Option (Element K V)
  find c key = elim (StringMap.lookup key c.items) [ none ↦ none | some p ↦ deref p c.evict_list ]

  unfoldable pub remove_element : Cache K V → Element K V → Cache K V
  remove_element c e = record c {
    evict_list = unlink e.ptr c.evict_list;
    items = StringMap.delete e.entry.key c.items;
    len = if has_generation c.current_generation e then c.len -ℤ pos 1 else c.len;
  }

  -- The branch of `AddWithExpiresInSecs` for a key that is there.
  unfoldable pub refresh : Cache K V → Element K V → V → ℤ → Cache K V
  refresh c e value expire_at_secs = record c {
    evict_list =
        store e.ptr
          (record e.entry {
            value = value;
            expire_at_secs = expire_at_secs;
            generation = c.current_generation;
          })
          (move_to_front e c.evict_list);
    len = if has_generation c.current_generation e then c.len else c.len +ℤ pos 1;
  }

  -- The other branch: a new element in front.
  unfoldable pub push_new : Cache K V → K → V → ℤ → Cache K V
  push_new c key value expire_at_secs = record c {
    evict_list =
        record {
          ptr = c.next_ptr;
          entry = record {
            key = key;
            value = value;
            expire_at_secs = expire_at_secs;
            generation = c.current_generation;
          };
        }
        ∷ c.evict_list;
    items = StringMap.insert key c.next_ptr c.items;
    len = c.len +ℤ pos 1;
    next_ptr = c.next_ptr + 1;
  }

  -- The eviction of the oldest element of a cache that has grown too long.
  unfoldable pub evict : Cache K V → Cache K V
  unfolding remove_element
  evict c =
      if ltb c.size (length c.evict_list)
      then elim (last? c.evict_list) [ none ↦ c | some e ↦ remove_element c e ]
      else c

  unfoldable pub add_with_expires_in_secs : ℤ → Cache K V → K → V → ℤ → Cache K V
  add_with_expires_in_secs now c key value ttl = elim (find c key) [
    | some e ↦ refresh c e value (deadline now ttl)
    | none ↦ evict (push_new c key value (deadline now ttl))
  ]

  unfoldable pub add : ℤ → Cache K V → K → V → Cache K V
  add now c key value = add_with_expires_in_secs now c key value (pos 0)

  unfoldable pub add_with_default_expires : ℤ → Cache K V → K → V → Cache K V
  add_with_default_expires now c key value =
      add_with_expires_in_secs now c key value c.default_expiry

  -- The test by which `Get` drops an element instead of returning it.
  abbrev pub is_stale : ℤ → Cache K V → Element K V → Bool
  is_stale now c e =
      not (has_generation c.current_generation e) || is_expired now e.entry.expire_at_secs

  unfoldable pub get : ℤ → Cache K V → K → Cache K V × Option V
  get now c key = elim (find c key) [
    | none ↦ (c, none)
    | some e ↦
        if is_stale now c e
        then (remove_element c e, none)
        else (record c { evict_list = move_to_front e c.evict_list }, some e.entry.value)
  ]

  unfoldable pub remove : Cache K V → K → Cache K V
  remove c key = elim (find c key) [ none ↦ c | some e ↦ remove_element c e ]

  -- model/lru.go has this operation too.
  unfoldable pub remove_func : Cache K V → K → (V → Bool) → Cache K V × Bool
  remove_func c key pred = elim (find c key) [
    | none ↦ (c, false)
    | some e ↦ if pred e.entry.value then (remove_element c e, true) else (c, false)
  ]

  -- The keys of the current generation, collected from the back: from oldest to newest.
  unfoldable pub keys_from : ℕ → List (Element K V) → List K → List K
  keys_from g [] acc = acc
  keys_from g (e ∷ es) acc = keys_from g es (if has_generation g e then e.entry.key ∷ acc else acc)

  unfoldable pub keys : Cache K V → List K
  unfolding keys_from
  keys c = keys_from c.current_generation c.evict_list []

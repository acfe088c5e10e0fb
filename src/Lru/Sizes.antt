-- ===== src/Lru/Sizes.antt =====
-- utils/lru.go: no operation changes the size or the default expiry of a cache.
use call_center.Prelude.{◌≡◌, arith, EqKey}
use call_center.Prelude.Int.{ℤ}
use call_center.Lru.{
  Cache, get, remove, remove_element, add_with_expires_in_secs, refresh, push_new, evict, deadline,
}

module _ {ℓ κ} {K : Type ℓ} {V : Type κ} ⦃eq : EqKey K⦄ where
  pub get_size : (now : ℤ) (c : Cache K V) (k : K) → (get now c k).0.size ≡ c.size
  unfolding get remove_element
  get_size now c k = ground arith

  pub get_expiry :
      (now : ℤ) (c : Cache K V) (k : K) → (get now c k).0.default_expiry ≡ c.default_expiry
  unfolding get remove_element
  get_expiry now c k = ground arith

  pub remove_size : (c : Cache K V) (k : K) → (remove c k).size ≡ c.size
  unfolding remove remove_element
  remove_size c k = ground arith

  pub remove_expiry : (c : Cache K V) (k : K) → (remove c k).default_expiry ≡ c.default_expiry
  unfolding remove remove_element
  remove_expiry c k = ground arith

  evict_size : (c : Cache K V) → (evict c).size ≡ c.size
  unfolding evict remove_element
  evict_size c = ground arith

  evict_expiry : (c : Cache K V) → (evict c).default_expiry ≡ c.default_expiry
  unfolding evict remove_element
  evict_expiry c = ground arith

  pub add_size :
      (now : ℤ) (c : Cache K V) (k : K) (v : V) (ttl : ℤ)
      → (add_with_expires_in_secs now c k v ttl).size ≡ c.size
  unfolding add_with_expires_in_secs refresh push_new
  add_size now c k v ttl = ground (arith, evict_size (push_new c k v (deadline now ttl)))

  pub add_expiry :
      (now : ℤ) (c : Cache K V) (k : K) (v : V) (ttl : ℤ)
      → (add_with_expires_in_secs now c k v ttl).default_expiry ≡ c.default_expiry
  unfolding add_with_expires_in_secs refresh push_new
  add_expiry now c k v ttl = ground (arith, evict_expiry (push_new c k v (deadline now ttl)))

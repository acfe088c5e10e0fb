-- ===== src/Lru/Access.antt =====
-- Reads and removals of utils/lru.go and model/lru.go, histories of calls, and what `Keys` returns.
use call_center.Prelude.{
  ℕ, ◌+◌, ◌^◌, ◌<◌, ◌≤◌, ◌≡◌, Bool, some, List, [], ◌∷◌, if◌then◌else◌, length, arith, Bool-cases,
  Option-cases, inl, inr, EqKey,
}
use call_center.Prelude.Int.{ℤ, pos}
use call_center.Lru.Elements.{Element, move_to_front, has_generation, count, length-unlink}
use call_center.Lru.Linked.{move_to_front-Linked}
use call_center.Lru.Invariant.{
  Inv, find-Linked, remove_element-Inv, new_lru-Inv, purge-Inv, add-Inv,
}
use call_center.Lru.{
  Cache, find, remove_element, refresh, push_new, evict, new_lru_with_params, purge,
  add_with_expires_in_secs, get, remove, remove_func, is_stale, keys, keys_from,
}

module _ {ℓ κ} {K : Type ℓ} {V : Type κ} ⦃eq : EqKey K⦄ where
  dropped-Inv :
      (c : Cache K V) (k : K) (e : Element K V)
      → Inv c
      → find c k ≡ some e
      → Inv (remove_element c e)
  dropped-Inv c k e v h =
      remove_element-Inv c e v.linked (omega (arith, v.bounded)) (find-Linked c k e v.linked h).0

  touched-Inv :
      (c : Cache K V) (k : K) (e : Element K V)
      → Inv c
      → find c k ≡ some e
      → Inv (record c { evict_list = move_to_front e c.evict_list })
  unfolding move_to_front
  touched-Inv c k e v h =
      let (there, _) = find-Linked c k e v.linked h in
      record {
        linked = move_to_front-Linked c e v.linked there;
        bounded = omega (arith, length-unlink e.ptr c.evict_list e there, v.bounded);
      }

  pub get-Inv : (now : ℤ) (c : Cache K V) (k : K) → Inv c → Inv (get now c k).0
  unfolding get
  get-Inv now c k v = elim (Option-cases (find c k)) [
    | inl miss ↦ rw (miss, get) v
    | inr (e, hit) ↦ elim (Bool-cases (is_stale now c e)) [
      | inl stale ↦ rw (hit, get) (rw stale (dropped-Inv c k e v hit))
      | inr live ↦ rw (hit, get) (rw live (touched-Inv c k e v hit))
    ]
  ]

  pub remove-Inv : (c : Cache K V) (k : K) → Inv c → Inv (remove c k)
  unfolding remove
  remove-Inv c k v = elim (Option-cases (find c k)) [
    | inl miss ↦ rw (miss, remove) v
    | inr (e, hit) ↦ rw (hit, remove) (dropped-Inv c k e v hit)
  ]

  remove_func-Inv : (c : Cache K V) (k : K) (pred : V → Bool) → Inv c → Inv (remove_func c k pred).0
  unfolding remove_func
  remove_func-Inv c k pred v = elim (Option-cases (find c k)) [
    | inl miss ↦ rw (miss, remove_func) v
    | inr (e, hit) ↦ elim (Bool-cases (pred e.entry.value)) [
      | inl chosen ↦ rw (hit, remove_func) (rw chosen (dropped-Inv c k e v hit))
      | inr kept ↦ rw (hit, remove_func) (rw kept v)
    ]
  ]

-- The calls that change a cache; a read moves its element, or drops it.
pub data Call {ℓ κ} (K : Type ℓ) (V : Type κ) : Type (ℓ ⊔ κ) where
  adds : ℤ → K → V → ℤ → Call K V
  gets : ℤ → K → Call K V
  removes : K → Call K V
  removes_if : K → (V → Bool) → Call K V
  purges : Call K V

module _ {ℓ κ} {K : Type ℓ} {V : Type κ} ⦃eq : EqKey K⦄ where
  unfoldable pub step : Cache K V → Call K V → Cache K V
  step c (adds now k v ttl) = add_with_expires_in_secs now c k v ttl
  step c (gets now k) = (get now c k).0
  step c (removes k) = remove c k
  step c (removes_if k pred) = (remove_func c k pred).0
  step c purges = purge c

  unfoldable pub run : Cache K V → List (Call K V) → Cache K V
  run c [] = c
  run c (x ∷ xs) = run (step c x) xs

  pub step-Inv :
      (c : Cache K V) (x : Call K V) → c.current_generation + 1 < 2 ^ 64 → Inv c → Inv (step c x)
  unfolding step
  step-Inv c (adds now k value ttl) w v = add-Inv now c k value ttl v
  step-Inv c (gets now k) w v = get-Inv now c k v
  step-Inv c (removes k) w v = remove-Inv c k v
  step-Inv c (removes_if k pred) w v = remove_func-Inv c k pred v
  step-Inv c purges w v = purge-Inv c w v

  -- No call but `Purge` starts a generation.
  step_generation :
      (c : Cache K V) (x : Call K V) → (step c x).current_generation ≤ c.current_generation + 1
  unfolding step add_with_expires_in_secs get remove remove_func purge remove_element refresh
      push_new evict
  step_generation c (adds now k value ttl) = ground arith
  step_generation c (gets now k) = ground arith
  step_generation c (removes k) = ground arith
  step_generation c (removes_if k pred) = ground arith
  step_generation c purges = omega arith

  run-Inv :
      (c : Cache K V) (xs : List (Call K V))
      → c.current_generation + length xs < 2 ^ 64
      → Inv c
      → Inv (run c xs)
  unfolding run
  run-Inv c [] w v = v
  run-Inv c (x ∷ xs) w v =
      run-Inv (step c x) xs (omega (arith, step_generation c x)) (step-Inv c x (omega arith) v)

  -- After any history of fewer than 2^64 calls from a new cache: each entry of the list is found
  -- under its key and each key leads to its entry, `len` counts the entries of the current
  -- generation, and no more than `size` entries are held.
  pub run-new_lru-Inv :
      (size : ℕ) (ttl : ℤ) (xs : List (Call K V))
      → length xs < 2 ^ 64
      → Inv (run (new_lru_with_params size ttl) xs)
  unfolding new_lru_with_params
  run-new_lru-Inv size ttl xs w =
      run-Inv (new_lru_with_params size ttl) xs (omega arith) (new_lru-Inv size ttl)

  length-keys_from :
      (g : ℕ) (es : List (Element K V)) (acc : List K)
      → length (keys_from g es acc) ≡ count g es + length acc
  unfolding keys_from
  length-keys_from g [] acc = omega arith
  length-keys_from g (e ∷ es) acc =
      ground (arith, length-keys_from g es (if has_generation g e then e.entry.key ∷ acc else acc))

  -- `Keys` fills exactly the `len` places of the slice that it makes.
  pub length-keys : (c : Cache K V) → Inv c → c.len ≡ pos (length (keys c))
  unfolding keys
  length-keys c v =
      ground (arith, v.linked.counted, length-keys_from c.current_generation c.evict_list [])

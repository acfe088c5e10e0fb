-- ===== src/Lru/Answers.antt =====
-- What `Get` of utils/lru.go answers after a purge, a removal and another `Get`.
use call_center.Prelude.{
  ℕ, ◌+◌, ◌^◌, ◌<◌, ◌≡◌, Bool, true, false, not, ◌&&◌, Option, none, some, if◌then◌else◌, arith,
  Option-cases, inl, inr, EqKey,
}
use call_center.Prelude.Int.{ℤ}
use call_center.Lru.Elements.{Element, has_generation, deref-Aged}
use call_center.Lru.Invariant.{Inv, find-Linked}
use call_center.Lru.Find.{find-remove_element, find-move_to_front}
use call_center.Lru.{Cache, find, remove_element, purge, get, remove, is_expired}

abbrev pub is_none {ℓ} : {A : Type ℓ} → Option A → Bool
is_none none = true
is_none (some _) = false

module _ {ℓ κ} {K : Type ℓ} {V : Type κ} ⦃eq : EqKey K⦄ where
  open eq use {same, same_iff}

  -- What `Get` answers for an element that `items` leads to.
  abbrev pub answer : ℤ → ℕ → Option (Element K V) → Option V
  answer now g none = none
  answer now g (some e) =
      if has_generation g e && not (is_expired now e.entry.expire_at_secs)
      then some e.entry.value
      else none

  pub get-answer :
      (now : ℤ) (c : Cache K V) (k : K)
      → (get now c k).1 ≡ answer now c.current_generation (find c k)
  unfolding get
  get-answer now c k = ground arith

  -- After `Purge` no key has a value, while the counter of generations does not wrap.
  pub get-purge :
      (now : ℤ) (c : Cache K V) (k : K)
      → c.current_generation + 1 < 2 ^ 64
      → Inv c
      → (get now (purge c) k).1 ≡ none
  unfolding purge find
  get-purge now c k w v = elim (Option-cases (find c k)) [
    | inl miss ↦ rw (get-answer now (purge c) k) (ground arith)
    | inr (e, hit) ↦
        let (there, _) = find-Linked c k e v.linked hit in
        rw (get-answer now (purge c) k)
          (ground (arith, deref-Aged c.current_generation e.ptr c.evict_list e there v.linked.aged))
  ]

  pub find-remove :
      (c : Cache K V) (k j : K)
      → Inv c
      → find (remove c k) j ≡ (if same k j then none else find c j)
  unfolding remove
  find-remove c k j v = elim (Option-cases (find c k)) [
    | inl miss ↦ ground (arith, same_iff k j)
    | inr (e, hit) ↦
        let (there, s) = find-Linked c k e v.linked hit in
        rw (hit, remove) (rw (← s) (find-remove_element c e j v.linked there))
  ]

  pub remove_generation :
      (c : Cache K V) (k : K) → (remove c k).current_generation ≡ c.current_generation
  unfolding remove remove_element
  remove_generation c k = ground arith

  -- `Remove` takes its key away, and changes the answer for no other key.
  pub get-remove :
      (now : ℤ) (c : Cache K V) (k j : K)
      → Inv c
      → (get now (remove c k) j).1 ≡ (if same k j then none else (get now c j).1)
  get-remove now c k j v =
      rw
        (
          get-answer now (remove c k) j,
          get-answer now c j,
          find-remove c k j v,
          remove_generation c k,
        )
        (ground arith)

  pub find-get :
      (now : ℤ) (c : Cache K V) (k j : K)
      → Inv c
      → find (get now c k).0 j ≡ (if same k j && is_none (get now c k).1 then none else find c j)
  unfolding get
  find-get now c k j v = elim (Option-cases (find c k)) [
    | inl miss ↦ ground (arith, same_iff k j)
    | inr (e, hit) ↦
        let (there, s) = find-Linked c k e v.linked hit in
        ground
          (arith, find-remove_element c e j v.linked there, find-move_to_front c e j v.linked there)
  ]

  pub get_generation :
      (now : ℤ) (c : Cache K V) (k : K) → (get now c k).0.current_generation ≡ c.current_generation
  unfolding get remove_element
  get_generation now c k = ground arith

  -- The answer of a second `Get`: what the first one answered `none` to is gone, and no other key
  -- is affected.
  pub get-get :
      (now later : ℤ) (c : Cache K V) (k j : K)
      → Inv c
      → (get later (get now c k).0 j).1
        ≡ (if same k j && is_none (get now c k).1 then none else (get later c j).1)
  get-get now later c k j v =
      rw
        (
          get-answer later (get now c k).0 j,
          get-answer later c j,
          find-get now c k j v,
          get_generation now c k,
        )
        (ground arith)

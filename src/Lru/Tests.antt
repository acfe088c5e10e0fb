-- ===== src/Lru/Tests.antt =====
-- The theorems on caches of numbers, and runs of one.
use call_center.Prelude.{
  ℕ, ◌<◌, ◌+◌, ◌^◌, ◌≡◌, refl, none, some, List, [], ◌∷◌, if◌then◌else◌, arith, length, nat_key,
}
use call_center.Prelude.Int.{pos, int64, ◌+ℤ◌, ◌-ℤ◌}
use call_center.Prelude.StringMap
use call_center.Lru.Elements
use call_center.Lru.Invariant.{Inv}
use call_center.Lru.Access.{Call, adds, gets, run, step, run-new_lru-Inv, length-keys}
use call_center.Lru.Answers.{get-purge, get-remove, get-get}
use call_center.Lru.Order.{get-add}
use call_center.Lru.{
  Cache, find, refresh, push_new, evict, remove_element, new_lru_with_params, purge, get, remove,
  keys, add_with_expires_in_secs, is_expired, deadline,
}

abbrev history : List (Call ℕ ℕ)
history = adds (pos 100) 1 10 (pos 60) ∷ adds (pos 101) 2 20 (pos 60) ∷ gets (pos 102) 1 ∷ []

-- Two entries, 1 the newer.
two_entries : Cache ℕ ℕ
unfolding run step keys new_lru_with_params add_with_expires_in_secs get find refresh push_new evict
    remove_element deadline int64 ◌+ℤ◌ ◌-ℤ◌ StringMap.lookup StringMap.insert StringMap.delete
    Elements.deref Elements.unlink Elements.move_to_front Elements.last?
two_entries = run (new_lru_with_params 2 (pos 60)) history

run-new_lru-Inv_example : Inv (run (new_lru_with_params 2 (pos 60)) history)
run-new_lru-Inv_example = run-new_lru-Inv 2 (pos 60) history (omega arith)

two_entries-Inv : Inv two_entries
unfolding two_entries
two_entries-Inv = run-new_lru-Inv 2 (pos 60) history (omega arith)

length-keys_example : two_entries.len ≡ pos (length (keys two_entries))
length-keys_example = length-keys two_entries two_entries-Inv

-- A third key evicts key 2: key 1 was read after it was added.
evicts_oldest : keys (step two_entries (adds (pos 103) 3 30 (pos 60))) ≡ 1 ∷ 3 ∷ []
unfolding two_entries
evicts_oldest = refl

two_entries_bounds : (0 < two_entries.size) × (two_entries.current_generation + 1 < 2 ^ 64)
unfolding two_entries
two_entries_bounds = omega arith

get-add_example :
    (get (pos 120) (add_with_expires_in_secs (pos 103) two_entries 3 30 (pos 60)) 3).1
    ≡ (if is_expired (pos 120) (deadline (pos 103) (pos 60)) then none else some 30)
get-add_example =
    get-add (pos 103) (pos 120) two_entries 3 30 (pos 60) 3 two_entries-Inv two_entries_bounds.0

get-purge_example : (get (pos 104) (purge two_entries) 1).1 ≡ none
get-purge_example = get-purge (pos 104) two_entries 1 two_entries_bounds.1 two_entries-Inv

get-remove_example : (get (pos 104) (remove two_entries 1) 1).1 ≡ none
get-remove_example = get-remove (pos 104) two_entries 1 1 two_entries-Inv

get-get_example : (get (pos 900) (get (pos 800) two_entries 1).0 1).1 ≡ none
unfolding two_entries
get-get_example = get-get (pos 800) (pos 900) two_entries 1 1 two_entries-Inv

-- ===== src/Queue/Resource/Errors.antt =====
-- `CheckCodeError` of queue/resource.go, and what the manager does with a failed or a successful dial.
use call_center.Prelude.{
  ◌≤◌, ◌≡◌, ◌≢◌, refl, inl, inr, Option-cases, Option, none, some, List, [], ◌∷◌, Bool, true, false,
  not, ◌||◌, ◌==◌, length, if◌then◌else◌, arith,
}
use call_center.Prelude.Int.{ℤ, ◌==ℤ◌, int_key}
use call_center.Lru.{remove, get}
use call_center.Lru.Invariant.{Inv}
use call_center.Lru.Answers.{get-remove}
use call_center.Model.Resource.{Runes, ResourceErrorResult}
use call_center.Queue.Resource.{
  Resource, Desk, StoreCall, check_masks, check_code_error, set_resource_error,
  set_resource_successful, set_successively_errors,
}
use call_center.Queue.Resource.Mask.{IsAscii, fits, check_code_mask-total, check_code_mask_lem}

check_masks-total : (ms : List Runes) (code : Runes) → check_masks ms code ≢ none
unfolding check_masks
check_masks-total [] code = ground arith
check_masks-total (m ∷ ms) code =
    ground (arith, check_code_mask-total m code, check_masks-total ms code)

check_code_error-total : (r : Resource) (code : Runes) → check_code_error r code ≢ none
unfolding check_code_error
check_code_error-total r code = elim (Option-cases r.error_ids) [
  | inl e ↦ ground arith
  | inr (ms, e) ↦ ground (arith, check_masks-total ms code)
]

-- A mask counts a code if their lengths differ, or it fits.
abbrev pub counts : Runes → Runes → Bool
counts mask code = not (length mask == length code) || fits mask code

abbrev pub any_counts : List Runes → Runes → Bool
any_counts [] code = false
any_counts (m ∷ ms) code = counts m code || any_counts ms code

abbrev pub AllAscii : List Runes → Type 0
AllAscii [] = Unit
AllAscii (m ∷ ms) = IsAscii m × AllAscii ms

check_masks_lem :
    (ms : List Runes) (code : Runes) → AllAscii ms → check_masks ms code ≡ some (any_counts ms code)
unfolding check_masks
check_masks_lem [] code a = refl
check_masks_lem (m ∷ ms) code a =
    ground (arith, check_code_mask_lem m code a.0, check_masks_lem ms code a.1)

-- A resource that limits its successive errors, with masks of ASCII, counts a code as an error
-- exactly if one of its masks fits the code or is of another length than the code.
pub check_code_error_lem :
    (r : Resource) (ms : List Runes) (code : Runes)
    → 1 ≤ r.max_successively_errors
    → r.error_ids ≡ some ms
    → AllAscii ms
    → check_code_error r code ≡ some (any_counts ms code)
unfolding check_code_error
check_code_error_lem r ms code m e a = rw e (ground (arith, check_masks_lem ms code a))

abbrev noted : Desk → Runes → Desk
noted d code = record d { store = StoreCall.set_error d.resource.id code ∷ d.store }

-- What a dial that ended with an error leaves.
pub record Handled (now : ℤ) (answer : Option ResourceErrorResult) (counted : Bool) (code : Runes)
    (d u : Desk) : Type 0 where
  pub told : counted ≡ true → u.store ≡ StoreCall.set_error d.resource.id code ∷ d.store
  pub kept : counted ≡ true → u.resource ≡ d.resource
  pub dropped :
      (j : ℤ)
      → counted ≡ true
      → answer ≢ none
      → (get now u.cache j).1 ≡ (if d.resource.id ==ℤ j then none else (get now d.cache j).1)
  pub failed : answer ≡ none → u.cache ≡ d.cache
  pub cleared : counted ≡ false → u.resource.successively_errors ≡ 0
  pub cached : counted ≡ false → u.cache ≡ d.cache

-- `SetResourceError` does not panic. If the code counts as an error, the error is written to the
-- store, and unless that fails the resource leaves the cache, where no other resource changes. If
-- it does not count, the counter of successive errors is 0, and the cache is as it was. The cache is
-- sound.
pub set_resource_error_lem :
    (now : ℤ) (answer : Option ResourceErrorResult) (code : Runes) (d : Desk)
    → Inv d.cache
    → (u : Desk) × (counted : Bool) × (set_resource_error answer code d ≡ some u)
      × (check_code_error d.resource code ≡ some counted)
      × Handled now answer counted code d u
unfolding set_resource_error set_resource_successful set_successively_errors
set_resource_error_lem now answer code d v =
    elim (Option-cases (check_code_error d.resource code)) [
      | inl e ↦ absurd (check_code_error-total d.resource code e)
      | inr (false, e) ↦ (
        set_resource_successful d,
        false,
        ground arith,
        e,
        record {
          told = λ h. ground arith;
          kept = λ h. ground arith;
          dropped = λ j h. ground arith;
          failed = λ h. ground arith;
          cleared = λ h. ground arith;
          cached = λ h. ground arith;
        },
      )
      | inr (true, e) ↦ elim (Option-cases answer) [
        | inl n ↦ (
          noted d code,
          true,
          ground arith,
          e,
          record {
            told = λ h. refl;
            kept = λ h. refl;
            dropped = λ j h g. absurd (g n);
            failed = λ h. refl;
            cleared = λ h. ground arith;
            cached = λ h. ground arith;
          },
        )
        | inr (r, n) ↦ (
          record (noted d code) { cache = remove d.cache d.resource.id },
          true,
          ground arith,
          e,
          record {
            told = λ h. refl;
            kept = λ h. refl;
            dropped = λ j h g. get-remove now d.cache d.resource.id j v;
            failed = λ h. ground arith;
            cleared = λ h. ground arith;
            cached = λ h. ground arith;
          },
        )
      ]
    ]

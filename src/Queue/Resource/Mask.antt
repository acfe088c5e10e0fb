-- ===== src/Queue/Resource/Mask.antt =====
-- `checkCodeMask` of queue/resource.go: its index stays in range, and what it answers.
use call_center.Prelude.{
  ℕ, zero, suc, ◌+◌, ◌<◌, ◌≤◌, ◌≡◌, ◌≢◌, refl, inl, inr, Bool-cases, none, some, [], ◌∷◌, Bool,
  true, false, not, ◌&&◌, ◌||◌, ◌==◌, length, get_elem?, arith,
}
use call_center.Model.Resource.{Runes}
use call_center.Queue.Resource.{
  rune_bytes, byte_length, mask_loop, check_code_mask, mask_char_upper, mask_char_lower,
}

rune_bytes-positive : (c : ℕ) → 1 ≤ rune_bytes c
unfolding rune_bytes
rune_bytes-positive c = ground arith

get_elem?-in : (code : Runes) (i : ℕ) → i < length code → get_elem? code i ≢ none
get_elem?-in [] i h = absurd (omega (arith, h))
get_elem?-in (c ∷ cs) zero h = ground arith
get_elem?-in (c ∷ cs) (suc i) h = get_elem?-in cs i (omega (arith, h))

mask_loop-total :
    (i : ℕ) (vs code : Runes) → i + byte_length vs ≤ length code → mask_loop i vs code ≢ none
unfolding mask_loop byte_length
mask_loop-total i [] code h = ground arith
mask_loop-total i (v ∷ vs) code h = ground (
  arith,
  mask_loop-total (i + rune_bytes v) vs code (omega (arith, h)),
  get_elem?-in code i (omega (arith, h, rune_bytes-positive v)),
)

-- The index of the loop stays in range: no mask and no code make it panic.
pub check_code_mask-total : (mask code : Runes) → check_code_mask mask code ≢ none
unfolding check_code_mask
check_code_mask-total mask code = elim (Bool-cases (byte_length mask == length code)) [
  | inl e ↦ ground (arith, mask_loop-total 0 mask code (ground arith))
  | inr e ↦ ground arith
]

-- A mask fits a code if each of its runes is the code's, or stands for any.
abbrev pub wildcard : ℕ → Bool
wildcard v = v == mask_char_upper || v == mask_char_lower

abbrev pub fits : Runes → Runes → Bool
fits [] [] = true
fits [] (c ∷ cs) = false
fits (v ∷ vs) [] = false
fits (v ∷ vs) (c ∷ cs) = (wildcard v || (v == c)) && fits vs cs

abbrev pub IsAscii : Runes → Type 0
IsAscii [] = Unit
IsAscii (v ∷ vs) = (v < 128) × IsAscii vs

abbrev drop : ℕ → Runes → Runes
drop zero cs = cs
drop (suc i) [] = []
drop (suc i) (c ∷ cs) = drop i cs

drop_step :
    (i : ℕ) (code : Runes) (c : ℕ) (cs : Runes)
    → drop i code ≡ c ∷ cs
    → (get_elem? code i ≡ some c) × (drop (suc i) code ≡ cs)
drop_step zero [] c cs h = ground (arith, h)
drop_step zero (d ∷ ds) c cs h = ground (arith, h)
drop_step (suc i) [] c cs h = ground (arith, h)
drop_step (suc i) (d ∷ ds) c cs h = drop_step i ds c cs h

mask_loop-fits :
    (i : ℕ) (vs code cs : Runes)
    → IsAscii vs
    → drop i code ≡ cs
    → length vs ≡ length cs
    → mask_loop i vs code ≡ some (not (fits vs cs))
unfolding mask_loop rune_bytes
mask_loop-fits i [] code [] a h l = refl
mask_loop-fits i [] code (c ∷ cs) a h l = absurd (omega (arith, l))
mask_loop-fits i (v ∷ vs) code [] a h l = absurd (omega (arith, l))
mask_loop-fits i (v ∷ vs) code (c ∷ cs) a h l = ground (
  arith,
  drop_step i code c cs h,
  mask_loop-fits (suc i) vs code cs a.1 (drop_step i code c cs h).1 (omega (arith, l)),
)

byte_length-ascii : (vs : Runes) → IsAscii vs → byte_length vs ≡ length vs
unfolding byte_length rune_bytes
byte_length-ascii [] a = refl
byte_length-ascii (v ∷ vs) a = ground (arith, byte_length-ascii vs a.1)

-- For a mask of ASCII, the answer is "true" exactly for a code of the mask's length that the mask
-- does not fit.
pub check_code_mask_lem :
    (mask code : Runes)
    → IsAscii mask
    → check_code_mask mask code ≡ some ((length mask == length code) && not (fits mask code))
unfolding check_code_mask
check_code_mask_lem mask code a =
    rw (byte_length-ascii mask a) (elim (Bool-cases (length mask == length code)) [
      | inl e ↦ rw e (mask_loop-fits 0 mask code code a refl (ground arith))
      | inr e ↦ rw e refl
    ])

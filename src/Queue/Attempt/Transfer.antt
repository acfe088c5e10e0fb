-- ===== src/Queue/Attempt/Transfer.antt =====
-- The transfer of a chat in queue/attempt.go: who holds it, and until when.
use call_center.Prelude.{List, [], ◌∷◌, true, false, ◌≡◌, arith}
use call_center.Prelude.Int.{ℤ, pos, ◌==ℤ◌, ==ℤ_iff}
use call_center.Queue.State.{Attempt}
use call_center.Queue.Attempt.{
  reserve_im_transfer, set_im_transfer_to, release_im_transfer, complete_im_transfer,
}

pub data TransferCall : Type 0 where
  reserves completes : TransferCall
  aims releases : ℤ → TransferCall

unfoldable pub step : TransferCall → Attempt → Attempt
unfolding reserve_im_transfer set_im_transfer_to release_im_transfer complete_im_transfer
step reserves a = (reserve_im_transfer a).0
step completes a = complete_im_transfer a
step (aims to_id) a = set_im_transfer_to to_id a
step (releases to_id) a = release_im_transfer to_id a

unfoldable pub transfer_run : List TransferCall → Attempt → Attempt
unfolding step
transfer_run [] a = a
transfer_run (c ∷ cs) a = transfer_run cs (step c a)

-- What others do while the transfer to `to_id` is on its way: they try to reserve, and release
-- transfers to other attempts.
abbrev pub IsOther : ℤ → TransferCall → Type 0
IsOther to_id reserves = Unit
IsOther to_id completes = ⊥
IsOther to_id (aims other) = ⊥
IsOther to_id (releases other) = (to_id ==ℤ other) ≡ false

abbrev pub AllOther : ℤ → List TransferCall → Type 0
AllOther to_id [] = Unit
AllOther to_id (c ∷ cs) = IsOther to_id c × AllOther to_id cs

-- The transfer is held for this target.
pub record IsHeld (to_id : ℤ) (a : Attempt) : Type 0 where
  pub pending : a.im_transfer_pending ≡ true
  pub aimed : a.im_transfer_to ≡ to_id
  pub open_channel : a.im_transferred_closed ≡ false

step-IsHeld :
    (to_id : ℤ) (c : TransferCall) (a : Attempt)
    → (to_id ==ℤ pos 0) ≡ false
    → IsOther to_id c
    → IsHeld to_id a
    → IsHeld to_id (step c a)
unfolding step
step-IsHeld to_id reserves a z o h = ground arith
step-IsHeld to_id completes a z o h = absurd o
step-IsHeld to_id (aims other) a z o h = absurd o
step-IsHeld to_id (releases other) a z o h = ground arith

run-IsHeld :
    (to_id : ℤ) (cs : List TransferCall) (a : Attempt)
    → (to_id ==ℤ pos 0) ≡ false
    → AllOther to_id cs
    → IsHeld to_id a
    → IsHeld to_id (transfer_run cs a)
unfolding transfer_run
run-IsHeld to_id [] a z o h = h
run-IsHeld to_id (c ∷ cs) a z o h =
    run-IsHeld to_id cs (step c a) z o.1 (step-IsHeld to_id c a z o.0 h)

-- The target that is aimed at is not 0, a reservation that succeeds holds it.
reserved-IsHeld :
    (to_id : ℤ) (a : Attempt)
    → (reserve_im_transfer a).1 ≡ true
    → IsHeld to_id (set_im_transfer_to to_id (reserve_im_transfer a).0)
unfolding reserve_im_transfer set_im_transfer_to
reserved-IsHeld to_id a r = ground arith

held-refuses : (to_id : ℤ) (a : Attempt) → IsHeld to_id a → (reserve_im_transfer a).1 ≡ false
unfolding reserve_im_transfer
held-refuses to_id a h = ground arith

held-releases :
    (to_id : ℤ) (a : Attempt)
    → IsHeld to_id a
    → (reserve_im_transfer (release_im_transfer to_id a)).1 ≡ true
unfolding reserve_im_transfer release_im_transfer
held-releases to_id a h = ground (arith, ==ℤ_iff a.im_transfer_to to_id)

-- A transfer that was reserved and aimed at an attempt is exclusive: whatever reservations others try
-- and whatever transfers to other attempts they release, it stays aimed, the next reservation is
-- refused, and after its own release a reservation succeeds.
pub reserve_im_transfer-transfer_run :
    (to_id : ℤ) (cs : List TransferCall) (a : Attempt)
    → (to_id ==ℤ pos 0) ≡ false
    → (reserve_im_transfer a).1 ≡ true
    → AllOther to_id cs
    → let u = transfer_run cs (set_im_transfer_to to_id (reserve_im_transfer a).0) in
      (u.im_transfer_to ≡ to_id)
      × ((reserve_im_transfer u).1 ≡ false)
      × ((reserve_im_transfer (release_im_transfer to_id u)).1 ≡ true)
reserve_im_transfer-transfer_run to_id cs a z r o =
    let h = run-IsHeld to_id cs _ z o (reserved-IsHeld to_id a r) in
    (h.aimed, held-refuses to_id _ h, held-releases to_id _ h)

step-closed :
    (c : TransferCall) (a : Attempt)
    → a.im_transferred_closed ≡ true
    → (step c a).im_transferred_closed ≡ true
unfolding step
step-closed reserves a h = ground arith
step-closed completes a h = ground arith
step-closed (aims to_id) a h = ground arith
step-closed (releases to_id) a h = ground arith

run-closed :
    (cs : List TransferCall) (a : Attempt)
    → a.im_transferred_closed ≡ true
    → (transfer_run cs a).im_transferred_closed ≡ true
unfolding transfer_run
run-closed [] a h = h
run-closed (c ∷ cs) a h = run-closed cs (step c a) (step-closed c a h)

closed-refuses : (a : Attempt) → a.im_transferred_closed ≡ true → (reserve_im_transfer a).1 ≡ false
unfolding reserve_im_transfer
closed-refuses a h = ground arith

complete-closed : (a : Attempt) → (complete_im_transfer a).im_transferred_closed ≡ true
unfolding complete_im_transfer
complete-closed a = ground arith

-- Once a transfer is complete, it stays so, and no reservation succeeds, whatever calls follow.
pub complete_im_transfer-transfer_run :
    (cs : List TransferCall) (a : Attempt)
    → let u = transfer_run cs (complete_im_transfer a) in
      (u.im_transferred_closed ≡ true) × ((reserve_im_transfer u).1 ≡ false)
complete_im_transfer-transfer_run cs a =
    let h = run-closed cs _ (complete-closed a) in (h, closed-refuses _ h)

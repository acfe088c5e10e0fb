-- ===== src/Queue/Manager/Runs.antt =====
-- queue/queue_manager.go: every sequence of the manager's methods keeps the books.
pub mod Distributes
pub mod Channels
pub mod Reports
pub mod All
use call_center.Prelude.{
  ℕ, ◌+◌, ◌≤◌, ◌≡◌, refl, sym, String, Option, none, some, Option-cases, List, [], ◌∷◌, Bool,
  Bool-cases, true, false, if◌then◌else◌, ◌⊎◌, inl, inr, arith, length, nat_key,
}
use call_center.Prelude.Int.{ℤ, pos, int_key}
use call_center.Prelude.StringMap.{lookup}
use call_center.Model.{AppError}
use call_center.Model.Agent.{Agent}
use call_center.Model.Member.{MemberAttempt, MemberCommunication, AttemptCallback}
use call_center.Lru.Lasting.{get-find}
use call_center.Queue.Resource.{Resource}
use call_center.Queue.State.{Attempt, BaseQueue, World}
use call_center.Queue.Attempt.{set_cancel, set_result}
use call_center.Queue.Attempt.Schema.{set_state, after_distribute_schema}
use call_center.Queue.Manager.{
  Cell, Request, Store, Manager, send, and_then, put_cell, set_attempt, after_method, finish_method,
  get_attempt, create_attempt, assign_agent, create_attempt_if_not_exists, settle, save_draft,
  notify_intercept, leave, leave_if_there, leaving_cell, leaving_member, leave_as, leave_with,
}
use call_center.Queue.Manager.Ending.{
  abandon_cell, abandoned, cancel_cell, put_if, set_attempt_cancel, cancel_if_live,
  cancel_agent_distribute, transfer_to, write_timeout, timeout_cell, timeout_leaving_member,
}
use call_center.Queue.Manager.Books.{
  Books, Same, Same-Books, Same-trans, Left, Ends, IfDone, and_then-IfDone, get_attempt-Books,
  create_attempt-Books,
}
use call_center.Queue.Manager.Leaves.{Out, settled-Same, leaving_cell-Out, leave_if_there-Out}

Ends-IfDone :
    (P Q : Manager → Type 0) (o : Option Manager)
    → ((u : Manager) → P u → Q u)
    → Ends P o
    → IfDone Q o
Ends-IfDone P Q none f p = tt
Ends-IfDone P Q (some u) f p = f u p

-- The first part of a result.
abbrev pub IfBoth {ℓ} : {A : Type ℓ} → (Manager → Type 0) → Option (Manager × A) → Type 0
IfBoth P none = Unit
IfBoth P (some (u, a)) = P u

no_queue :
    (now : ℤ) (p : ℕ) (c : Cell) (s : Manager) → c.attempt.queue ≡ none → leave now p c s ≡ none
unfolding leave set_state finish_method
no_queue now p c s h = rw (h, set_state) refl

leave_if_there-Books :
    (now : ℤ) (p : ℕ) (c : Cell) (s : Manager) → Books s → IfDone Books (leave_if_there now p c s)
unfolding leave_if_there
leave_if_there-Books now p c s b =
    let id = c.attempt.member.id in
    let read = (get_attempt now id s).0 in
    elim (Option-cases (get_attempt now id s).1) [
      | inl miss ↦ rw (miss, leave_if_there) (get_attempt-Books now id s b)
      | inr (r, hit) ↦ elim (Option-cases c.attempt.queue) [
        | inl h ↦ rw (hit, leave_if_there) (rw (no_queue now p c read h) tt)
        | inr (q, h) ↦
            Ends-IfDone (Out p id s) Books (leave_if_there now p c s) (λ u (l, st). l.books)
              (leave_if_there-Out now p r c q s b h hit)
      ]
    ]

pub leaving_cell-Books :
    (now : ℤ) (p : ℕ) (c : Cell) (s : Manager) → Books s → IfDone Books (leaving_cell now p c s)
unfolding leaving_cell
leaving_cell-Books now p c s b =
    leave_if_there-Books now p (settle c) (notify_intercept (settle c) (put_cell p (settle c) s))
      (Same-Books s _ (settled-Same p c s) b)

pub at_address :
    (p : ℕ) (s : Manager) (f : Cell → Option Manager)
    → ((c : Cell) → IfDone Books (f c))
    → IfDone Books (elim (lookup p s.heap) [ none ↦ none | some c ↦ f c ])
at_address p s f k = elim (Option-cases (lookup p s.heap)) [
  | inl miss ↦ rw miss tt
  | inr (c, hit) ↦ rw hit (k c)
]

pub leave_as-Books :
    (now : ℤ) (p : ℕ) (c : Cell) (s : Manager) → Books s → IfDone Books (leave_as now p c s)
unfolding leave_as put_cell
leave_as-Books now p c s b =
    leaving_cell-Books now p c (put_cell p c s) (Same-Books s (put_cell p c s) (refl, refl, refl) b)

pub send-Books : (r : Request) (s : Manager) → Books s → Books (send r s)
send-Books r s b = Same-Books s (send r s) (refl, refl, refl) b

pub leave_with-Books :
    (now : ℤ) (p : ℕ) (c : Cell) (r : Request) (s : Manager)
    → Books s
    → IfDone Books (leave_with now p c r s)
unfolding leave_with
leave_with-Books now p c r s b = leave_as-Books now p c (send r s) (send-Books r s b)

pub abandon_cell-Books :
    (st : Store) (now : ℤ) (p : ℕ) (c : Cell) (s : Manager)
    → Books s
    → IfDone Books (abandon_cell st now p c s)
unfolding abandon_cell
abandon_cell-Books st now p c s b = search leave_with-Books

pub leaving_member-Books :
    (now : ℤ) (p : ℕ) (s : Manager) → Books s → IfDone Books (leaving_member now p s)
unfolding leaving_member
leaving_member-Books now p s b =
    at_address p s (λ c. leaving_cell now p c s) (λ c. leaving_cell-Books now p c s b)

pub abandoned-Books :
    (st : Store) (now : ℤ) (p : ℕ) (s : Manager) → Books s → IfDone Books (abandoned st now p s)
unfolding abandoned
abandoned-Books st now p s b =
    at_address p s (λ c. abandon_cell st now p c s) (λ c. abandon_cell-Books st now p c s b)

pub transfer_to-Books :
    (now to : ℤ) (p : ℕ) (c : Cell) (s : Manager)
    → Books s
    → IfDone Books (transfer_to now to p c s)
unfolding transfer_to
transfer_to-Books now to p c s b = search leave_with-Books

write_timeout-Books :
    (st : Store) (now : ℤ) (p : ℕ) (c : Cell) (cb : AttemptCallback) (s : Manager)
    → Books s
    → IfDone Books (write_timeout st now p c cb s)
unfolding write_timeout
write_timeout-Books st now p c cb s b =
    let a = c.attempt in
    let write = Request.schema_written a.member.id cb a.max_attempts a.wait_between a.per_numbers in
    elim (Option-cases a.draft) [
      | inr (d, h) ↦ rw (h, write_timeout) (leaving_cell-Books now p c s b)
      | inl h ↦ elim (Option-cases (st.leaves write)) [
        | inl e ↦ rw (h, write_timeout) (rw e (send-Books write s b))
        | inr ((cause, res), e) ↦ rw (h, write_timeout) (rw e (search leave_with-Books))
      ]
    ]

pub after_method-Books :
    (p : ℕ) (c : Cell) (w : World) (s : Manager) → Books s → Books (after_method p c w s)
unfolding after_method put_cell
after_method-Books p c w s b = Same-Books s (after_method p c w s) (refl, refl, refl) b

timeout_cell-Books :
    (st : Store) (now : ℤ) (p : ℕ) (c : Cell) (s : Manager)
    → Books s
    → IfDone Books (timeout_cell st now p c s)
unfolding timeout_cell
timeout_cell-Books st now p c s b = elim (Option-cases c.attempt.queue) [
  | inl h ↦ rw (h, timeout_cell) b
  | inr (q, h) ↦
      let w = after_distribute_schema st.flow now (record { attempt = c.attempt; effects = [] }) in
      elim (Option-cases w.1) [
        | inl e ↦ rw (h, timeout_cell) (rw e (search (write_timeout-Books, after_method-Books)))
        | inr (r, e) ↦
            rw (h, timeout_cell) (rw e (search (write_timeout-Books, after_method-Books)))
      ]
]

pub timeout_leaving_member-Books :
    (st : Store) (now : ℤ) (p : ℕ) (s : Manager)
    → Books s
    → IfDone Books (timeout_leaving_member st now p s)
unfolding timeout_leaving_member
timeout_leaving_member-Books st now p s b =
    at_address p s (λ c. timeout_cell st now p c s) (λ c. timeout_cell-Books st now p c s b)

pub put_cell-Books : (p : ℕ) (c : Cell) (s : Manager) → Books s → Books (put_cell p c s)
unfolding put_cell
put_cell-Books p c s b = Same-Books s (put_cell p c s) (refl, refl, refl) b

put_if-Books :
    (p : ℕ) (c : Cell) (o : Option Attempt) (s : Manager) → Books s → IfDone Books (put_if p c o s)
unfolding put_if
put_if-Books p c none s b = tt
put_if-Books p c (some a) s b = put_cell-Books p (set_attempt a c) s b

cancel_if_live-Books : (p : ℕ) (s : Manager) → Books s → IfDone Books (cancel_if_live p s)
unfolding cancel_if_live
cancel_if_live-Books p s b = elim (Option-cases (lookup p s.heap)) [
  | inl h ↦ rw (h, cancel_if_live) tt
  | inr (c, h) ↦ elim (Bool-cases c.attempt.canceled) [
    | inl live ↦ rw (h, cancel_if_live) (rw live b)
    | inr live ↦ rw (h, cancel_if_live) (rw live (put_if-Books p c _ s b))
  ]
]

pub cancel_agent_distribute-Books :
    (now : ℤ) (ids : List ℤ) (s : Manager)
    → Books s
    → IfDone Books (cancel_agent_distribute now ids s)
unfolding cancel_agent_distribute
cancel_agent_distribute-Books now [] s b = b
cancel_agent_distribute-Books now (id ∷ ids) s b =
    let read = (get_attempt now id s).0 in
    let books = get_attempt-Books now id s b in
    elim (Option-cases (get_attempt now id s).1) [
      | inl h ↦ rw (h, cancel_agent_distribute) (cancel_agent_distribute-Books now ids read books)
      | inr (p, h) ↦
          rw (h, cancel_agent_distribute)
            (and_then-IfDone Books Books (cancel_if_live p read)
              (λ u. cancel_agent_distribute now ids u) (cancel_if_live-Books p read books)
              (λ u k. cancel_agent_distribute-Books now ids u k))
    ]

flagged : (o : Option Manager) → IfDone Books o → IfBoth Books (and_then o (λ u. some (u, true)))
flagged none k = tt
flagged (some u) k = k

pub set_attempt_cancel-Books :
    (now id : ℤ) (res : String) (s : Manager)
    → Books s
    → IfBoth Books (set_attempt_cancel now id res s)
unfolding set_attempt_cancel cancel_cell
set_attempt_cancel-Books now id res s b =
    let read = (get_attempt now id s).0 in
    let books = get_attempt-Books now id s b in
    elim (Option-cases (get_attempt now id s).1) [
      | inl h ↦ rw (h, set_attempt_cancel) books
      | inr (p, h) ↦ elim (Option-cases (lookup p read.heap)) [
        | inl k ↦ rw (h, set_attempt_cancel) (rw k tt)
        | inr (c, k) ↦
            rw (h, set_attempt_cancel)
              (rw k (
                flagged (cancel_cell res p c read)
                  (put_if-Books p c (set_cancel (set_result res c.attempt)) read books)))
      ]
    ]

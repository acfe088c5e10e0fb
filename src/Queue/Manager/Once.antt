-- ===== src/Queue/Manager/Once.antt =====
-- `LeavingMember` of queue/queue_manager.go, called again: the attempt is not in the table any more.
use call_center.Prelude.{ℕ, ◌≡◌, refl, sym, subst, ◌∙◌, none, some, arith, nat_key}
use call_center.Prelude.Int.{ℤ, ==ℤ_iff, int_key}
use call_center.Prelude.StringMap.{lookup}
use call_center.Lru.Answers.{get-get, get-answer}
use call_center.Lru.Lasting.{get-find}
use call_center.Queue.State.{BaseQueue}
use call_center.Queue.Manager.{
  Cell, Manager, put_cell, get_attempt, settle, notify_intercept, leave_if_there, leaving_cell,
  leaving_member,
}
use call_center.Queue.Manager.Books.{Books, Same, Same-Books, Left, Ends}
use call_center.Queue.Manager.Leaves.{
  Out, Same-get, settle-id, settled-Same, leaving_cell-Out, Ends-map,
}

-- The table answers as before.
pub record Unmoved (s u : Manager) : Type 0 where
  pub same_wg : u.wg ≡ s.wg
  pub answers : (later j : ℤ) → (get_attempt later j u).1 ≡ (get_attempt later j s).1

missed_read :
    (now later id j : ℤ) (s : Manager)
    → Books s
    → (get_attempt now id s).1 ≡ none
    → (get_attempt later j (get_attempt now id s).0).1 ≡ (get_attempt later j s).1
unfolding get_attempt
missed_read now later id j s b miss = ground (
  arith,
  get-get now later s.members id j b.lasting.inv,
  get-answer later s.members j,
  get-find now s.members id b.lasting miss,
  ==ℤ_iff id j,
)

Same-Unmoved : (s t u : Manager) → Same s t → Unmoved t u → Unmoved s u
Same-Unmoved s t u (m, w, n) k = record {
  same_wg = k.same_wg ∙ w;
  answers = λ later j. k.answers later j ∙ Same-get s t (m, w, n) later j;
}

leave_if_there-Unmoved :
    (now : ℤ) (p : ℕ) (c : Cell) (s : Manager)
    → Books s
    → (get_attempt now c.attempt.member.id s).1 ≡ none
    → Ends (Unmoved s) (leave_if_there now p c s)
unfolding leave_if_there get_attempt
leave_if_there-Unmoved now p c s b miss =
    rw (miss, leave_if_there)
      (record {
        same_wg = refl;
        answers = λ later j. missed_read now later c.attempt.member.id j s b miss;
      })

-- An attempt that the table does not have leaves nothing changed in it.
leaving_cell-Unmoved :
    (now : ℤ) (p : ℕ) (c : Cell) (s : Manager)
    → Books s
    → (get_attempt now c.attempt.member.id s).1 ≡ none
    → Ends (Unmoved s) (leaving_cell now p c s)
unfolding leaving_cell
leaving_cell-Unmoved now p c s b miss =
    let t = notify_intercept (settle c) (put_cell p (settle c) s) in
    let k = settled-Same p c s in
    Ends-map _ _ (leave_if_there now p (settle c) t) (λ u l. Same-Unmoved s t u k l)
      (leave_if_there-Unmoved now p (settle c) t (Same-Books s t k b) (
        subst (λ i. (get_attempt now i t).1 ≡ none) (sym (settle-id c))
          (Same-get s t k now c.attempt.member.id ∙ miss)))

leaving_member-Unmoved :
    (later : ℤ) (p : ℕ) (id : ℤ) (s u : Manager)
    → Out p id s u
    → Ends (Unmoved u) (leaving_member later p u)
unfolding leaving_member
leaving_member-Unmoved later p id s u (l, (d, at, same)) =
    rw (at, leaving_member)
      (leaving_cell-Unmoved later p d u l.books
        (rw (same, l.gone later id) (ground (arith, ==ℤ_iff id id))))

-- An attempt of a queue that the table has, where the books are in order: it leaves without a panic, the
-- wait group is one less, the table answers none for its id and as before for each other, and the
-- books are in order. When it leaves again, at any time, neither the wait group nor an answer of the
-- table changes.
pub leaving_member-leaving_member :
    (now : ℤ) (p r : ℕ) (c : Cell) (q : BaseQueue) (s : Manager)
    → Books s
    → lookup p s.heap ≡ some c
    → c.attempt.queue ≡ some q
    → (get_attempt now c.attempt.member.id s).1 ≡ some r
    → Ends
        (λ u.
          Left c.attempt.member.id s u
          × ((later : ℤ) → Ends (Unmoved u) (leaving_member later p u)))
        (leaving_member now p s)
unfolding leaving_member
leaving_member-leaving_member now p r c q s b at h hit =
    rw (at, leaving_member)
      (Ends-map _ _ (leaving_cell now p c s)
        (λ u (l, st). (l, λ later. leaving_member-Unmoved later p c.attempt.member.id s u (l, st)))
        (leaving_cell-Out now p r c q s b h hit))

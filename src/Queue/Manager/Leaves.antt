-- ===== src/Queue/Manager/Leaves.antt =====
-- `LeavingMember` of queue/queue_manager.go: an attempt leaves the table once.
use call_center.Prelude.{
  ℕ, ◌≡◌, refl, sym, ap, subst, ◌∙◌, String, Option, none, some, [], if◌then◌else◌, ==_iff, arith,
  nat_key,
}
use call_center.Prelude.Int.{ℤ, ◌==ℤ◌, int_key}
use call_center.Prelude.StringMap.{lookup, lookup-insert}
use call_center.Lru.Answers.{get-get}
use call_center.Queue.State.{Attempt, BaseQueue, World}
use call_center.Queue.Attempt.{set_result, is_processing_autosave_enabled}
use call_center.Queue.Attempt.Schema.{set_state, stamp_state, hook}
use call_center.Queue.Manager.{
  Cell, Manager, and_then, put_cell, set_attempt, after_method, finish_method, get_attempt,
  flush_attempt_fields, save_draft, close_form, done, remove_attempt, leave, settle,
  notify_intercept, leave_if_there, leaving_cell,
}
use call_center.Queue.Manager.Books.{
  Books, Same, Same-Books, Same-trans, Left, Ends, IfDone, get_attempt-Books, remove_attempt-Left,
}

abbrev EndsWorld : (World → Type 0) → Option World → Type 0
EndsWorld P none = ⊥
EndsWorld P (some u) = P u

set_state-id :
    (now : ℤ) (name : String) (q : BaseQueue) (w : World)
    → w.attempt.queue ≡ some q
    → EndsWorld (λ u. u.attempt.member.id ≡ w.attempt.member.id) (set_state now name w)
unfolding set_state stamp_state hook
set_state-id now name q w h = ground arith

-- An attempt of this id stands at the address.
abbrev pub Stands : ℕ → ℤ → Manager → Type 0
Stands p id s = (d : Cell) × (lookup p s.heap ≡ some d) × (d.attempt.member.id ≡ id)

put_cell-Stands : (p : ℕ) (c : Cell) (s : Manager) → Stands p c.attempt.member.id (put_cell p c s)
unfolding put_cell
put_cell-Stands p c s = (c, ground (arith, lookup-insert p p c s.heap, ==_iff p p), refl)

finish_method-Same :
    (p : ℕ) (c : Cell) (o : Option World) (s : Manager)
    → EndsWorld (λ u. u.attempt.member.id ≡ c.attempt.member.id) o
    → Ends (λ u. Same s u × Stands p c.attempt.member.id u) (finish_method p c o s)
unfolding finish_method after_method put_cell
finish_method-Same p c (some w) s h =
    let (d, at, same) = put_cell-Stands p (set_attempt w.attempt c) s in
    ((refl, refl, refl), (d, at, same ∙ h))
finish_method-Same p c none s h = h

save_draft-Same : (a : Attempt) (s : Manager) → Same s (save_draft a s)
unfolding save_draft flush_attempt_fields is_processing_autosave_enabled
save_draft-Same a s = ground arith

save_draft-heap : (a : Attempt) (s : Manager) → (save_draft a s).heap ≡ s.heap
unfolding save_draft flush_attempt_fields is_processing_autosave_enabled
save_draft-heap a s = ground arith

close_form-Same : (c : Cell) (s : Manager) → Same s (close_form c s)
close_form-Same c s = ground arith

close_form-heap : (c : Cell) (s : Manager) → (close_form c s).heap ≡ s.heap
close_form-heap c s = ground arith

notify_intercept-Same : (c : Cell) (s : Manager) → Same s (notify_intercept c s)
unfolding notify_intercept
notify_intercept-Same c s = ground arith

notify_intercept-heap : (c : Cell) (s : Manager) → (notify_intercept c s).heap ≡ s.heap
unfolding notify_intercept
notify_intercept-heap c s = ground arith

remove_attempt-heap : (id : ℤ) (s : Manager) → IfDone (λ u. u.heap ≡ s.heap) (remove_attempt id s)
unfolding remove_attempt done
remove_attempt-heap id s = ground arith

both :
    (P Q : Manager → Type 0) (o : Option Manager) → Ends P o → IfDone Q o → Ends (λ u. P u × Q u) o
both P Q none p q = p
both P Q (some u) p q = (p, q)

pub and_then-Ends :
    (P Q : Manager → Type 0) (o : Option Manager) (f : Manager → Option Manager)
    → Ends P o
    → ((u : Manager) → P u → Ends Q (f u))
    → Ends Q (and_then o f)
and_then-Ends P Q none f p k = p
and_then-Ends P Q (some u) f p k = k u p

pub Ends-map :
    (P Q : Manager → Type 0) (o : Option Manager)
    → ((u : Manager) → P u → Q u)
    → Ends P o
    → Ends Q o
Ends-map P Q none f p = p
Ends-map P Q (some u) f p = f u p

pub Same-get :
    (s u : Manager) → Same s u → (now id : ℤ) → (get_attempt now id u).1 ≡ (get_attempt now id s).1
unfolding get_attempt
Same-get s u (m, _, _) now id = rw m refl

-- A change of other parts before an attempt leaves.
pub Same-Left : (id : ℤ) (s t u : Manager) → Same s t → Left id t u → Left id s u
Same-Left id s t u k l = record {
  books = l.books;
  once = l.once ∙ k.1;
  gone =
      λ later j. l.gone later j ∙ ap (λ o. if id ==ℤ j then none else o) (Same-get s t k later j);
}

-- Out of the table, and still at its address.
abbrev pub Out : ℕ → ℤ → Manager → Manager → Type 0
Out p id s u = Left id s u × Stands p id u

removed_Out :
    (now : ℤ) (p q : ℕ) (id : ℤ) (s : Manager)
    → Books s
    → (get_attempt now id s).1 ≡ some q
    → Stands p id s
    → Ends (Out p id s) (remove_attempt id s)
removed_Out now p q id s b hit (d, at, same) =
    Ends-map _ _ (remove_attempt id s) (λ u (l, h). (l, (d, rw h at, same)))
      (both _ _ (remove_attempt id s) (remove_attempt-Left now id q s b hit)
        (remove_attempt-heap id s))

leave-Out :
    (now : ℤ) (p r : ℕ) (c : Cell) (q : BaseQueue) (s : Manager)
    → Books s
    → c.attempt.queue ≡ some q
    → (get_attempt now c.attempt.member.id s).1 ≡ some r
    → Ends (Out p c.attempt.member.id s) (leave now p c s)
unfolding leave
leave-Out now p r c q s b h hit =
    let saved = save_draft c.attempt s in
    let w : World = record { attempt = c.attempt; effects = [] } in
    and_then-Ends _ _ (finish_method p c (set_state now "leaving" w) saved)
      (λ u. remove_attempt c.attempt.member.id (close_form c u))
      (finish_method-Same p c (set_state now "leaving" w) saved (set_state-id now "leaving" q w h))
      (λ u (k, (d, at, same)).
        (let all =
            Same-trans s u (close_form c u) (Same-trans s saved u (save_draft-Same c.attempt s) k)
              (close_form-Same c u) in
          let closed = close_form c u in
          Ends-map _ _ (remove_attempt c.attempt.member.id closed)
            (λ v (l, st). (Same-Left c.attempt.member.id s closed v all l, st))
            (removed_Out now p r c.attempt.member.id closed (Same-Books s closed all b)
              (Same-get s closed all now c.attempt.member.id ∙ hit)
              (d, rw (close_form-heap c u) at, same))))

-- A read that hits changes no answer.
pub read_get :
    (now later id j : ℤ) (r : ℕ) (s : Manager)
    → Books s
    → (get_attempt now id s).1 ≡ some r
    → (get_attempt later j (get_attempt now id s).0).1 ≡ (get_attempt later j s).1
unfolding get_attempt
read_get now later id j r s b hit = ground (arith, get-get now later s.members id j b.lasting.inv)

pub read_Left :
    (now id : ℤ) (r : ℕ) (s u : Manager)
    → Books s
    → (get_attempt now id s).1 ≡ some r
    → Left id (get_attempt now id s).0 u
    → Left id s u
unfolding get_attempt
read_Left now id r s u b hit l = record {
  books = l.books;
  once = l.once;
  gone = λ later j.
      l.gone later j ∙ ap (λ o. if id ==ℤ j then none else o) (read_get now later id j r s b hit);
}

pub leave_if_there-Out :
    (now : ℤ) (p r : ℕ) (c : Cell) (q : BaseQueue) (s : Manager)
    → Books s
    → c.attempt.queue ≡ some q
    → (get_attempt now c.attempt.member.id s).1 ≡ some r
    → Ends (Out p c.attempt.member.id s) (leave_if_there now p c s)
unfolding leave_if_there
leave_if_there-Out now p r c q s b h hit =
    let id = c.attempt.member.id in
    let read = (get_attempt now id s).0 in
    rw (hit, leave_if_there)
      (Ends-map _ _ (leave now p c read) (λ u (l, st). (read_Left now id r s u b hit l, st))
        (leave-Out now p r c q read (get_attempt-Books now id s b) h
          (read_get now now id id r s b hit ∙ hit)))

pub settle-id : (c : Cell) → (settle c).attempt.member.id ≡ c.attempt.member.id
unfolding settle set_result
settle-id c = ground arith

settle-queue : (c : Cell) → (settle c).attempt.queue ≡ c.attempt.queue
unfolding settle set_result
settle-queue c = ground arith

pub settled-Same :
    (p : ℕ) (c : Cell) (s : Manager)
    → Same s (notify_intercept (settle c) (put_cell p (settle c) s))
unfolding put_cell
settled-Same p c s =
    Same-trans s (put_cell p (settle c) s) (notify_intercept (settle c) (put_cell p (settle c) s))
      (refl, refl, refl) (notify_intercept-Same (settle c) (put_cell p (settle c) s))

pub leaving_cell-Out :
    (now : ℤ) (p r : ℕ) (c : Cell) (q : BaseQueue) (s : Manager)
    → Books s
    → c.attempt.queue ≡ some q
    → (get_attempt now c.attempt.member.id s).1 ≡ some r
    → Ends (Out p c.attempt.member.id s) (leaving_cell now p c s)
unfolding leaving_cell
leaving_cell-Out now p r c q s b h hit =
    let t = notify_intercept (settle c) (put_cell p (settle c) s) in
    let k = settled-Same p c s in
    let found : (get_attempt now (settle c).attempt.member.id t).1 ≡ some r =
      subst (λ i. (get_attempt now i t).1 ≡ some r) (sym (settle-id c))
        (Same-get s t k now c.attempt.member.id ∙ hit) in
    let ended =
      leave_if_there-Out now p r (settle c) q t (Same-Books s t k b) (settle-queue c ∙ h) found in
    Ends-map _ _ (leave_if_there now p (settle c) t)
      (λ u (l, st). (Same-Left c.attempt.member.id s t u k l, st))
      (subst (λ i. Ends (Out p i t) (leave_if_there now p (settle c) t)) (settle-id c) ended)

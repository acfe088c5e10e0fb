-- ===== src/Queue/Manager/Reported.antt =====
-- `ReportingAttempt` of queue/queue_manager.go, by the system: the attempt leaves.
use call_center.Prelude.{
  ℕ, ◌≡◌, refl, sym, ap, subst, [], ◌∙◌, Option, none, some, Bool, true, false, not, ◌&&◌, inr,
  arith, ◌==s◌, ==_iff, nat_key,
}
use call_center.Prelude.Int.{ℤ, int_key}
use call_center.Prelude.StringMap.{lookup, lookup-insert}
use call_center.Model.Member.{AttemptCallback}
use call_center.Queue.State.{BaseQueue}
use call_center.Queue.Attempt.{drop_draft_result, set_callback}
use call_center.Queue.Attempt.Schema.{apply_callback_rules}
use call_center.Queue.Attempt.Callback.{apply_callback_rules-Kept}
use call_center.Queue.Manager.{
  Cell, Request, Store, Manager, put_cell, set_attempt, after_method, get_attempt,
}
use call_center.Queue.Manager.Reporting.{ReportingResult, Channels, Ended, apply_rules}
use call_center.Queue.Manager.Report.{
  at_cell, or_abandoned, write_callback, rules_and_write, process_callback, report_cell,
  report_unknown, reporting_attempt,
}
use call_center.Queue.Manager.Books.{Books, Same, Left, get_attempt-Books}
use call_center.Queue.Manager.Leaves.{Same-Left, read_get, read_Left}
use call_center.Queue.Manager.Written.{EndsBoth, EndsBoth-map, Here, moved-Here, write-Left}

-- The rules of the callback keep what the end needs.
ruled-Here :
    (st : Store) (now id : ℤ) (cb : AttemptCallback) (q : BaseQueue) (c : Cell) (s u : Manager)
    → Same s u
    → Here now id q c s
    → let w =
        (apply_callback_rules st.flow now cb (record { attempt = c.attempt; effects = [] })).0 in
      Here now id q (set_attempt w.attempt c) u
ruled-Here st now id cb q c s u k h =
    let kept =
      apply_callback_rules-Kept st.flow now cb (record { attempt = c.attempt; effects = [] }) in
    let moved = moved-Here now id q c s u k h in
    record {
      books = moved.books;
      own = kept.kept_id ∙ h.own;
      queued = kept.kept_queue ∙ h.queued;
      no_chat = ap (λ n. n ==s "chat") kept.kept_channel ∙ h.no_chat;
      address = moved.address;
      found = moved.found;
    }

rules-Left :
    (st : Store) (ch : Channels) (now id : ℤ) (cb : AttemptCallback) (res : ReportingResult)
    (q : BaseQueue) (p : ℕ) (c : Cell) (s : Manager)
    → ((r : Request) → ch.callback r ≡ inr res)
    → Here now id q c s
    → EndsBoth (Left id s) (rules_and_write st ch now true cb p c s)
unfolding rules_and_write apply_rules after_method put_cell
rules-Left st ch now id cb res q p c s ok h =
    let ruled = apply_rules st now cb p c s in
    let w =
      (apply_callback_rules st.flow now cb (record { attempt = c.attempt; effects = [] })).0 in
    let set = set_attempt w.attempt c in
    let there : lookup p ruled.0.heap ≡ some set =
      ground (arith, lookup-insert p p set s.heap, ==_iff p p) in
    subst
      (λ o. EndsBoth (Left id s) (elim o as (λ _. Option (Manager × Ended)) [
        | none ↦ none
        | some d ↦ write_callback ch now true ruled.1 p d ruled.0
      ]))
      (sym there)
      (EndsBoth-map _ _ (write_callback ch now true ruled.1 p set ruled.0)
        (λ u l. Same-Left id s ruled.0 u (refl, refl, refl) l)
        (write-Left ch now id ruled.1 res q p set ruled.0 ok
          (ruled-Here st now id cb q c s ruled.0 (refl, refl, refl) h)))

no_wait : (b : Bool) → (b && not true) ≡ false
no_wait b = ground arith

process-Left :
    (st : Store) (ch : Channels) (now id : ℤ) (cb : AttemptCallback) (res : ReportingResult)
    (q : BaseQueue) (p : ℕ) (c : Cell) (s : Manager)
    → ((r : Request) → ch.callback r ≡ inr res)
    → Here now id q c s
    → EndsBoth (Left id s) (process_callback st ch now true cb p c s)
unfolding process_callback set_callback put_cell
process-Left st ch now id cb res q p c s ok h =
    let set = set_attempt (set_callback cb c.attempt) c in
    let u = put_cell p set s in
    let here : Here now id q set s = record {
      books = h.books;
      own = ground (arith, h.own);
      queued = ground (arith, h.queued);
      no_chat = ground (arith, h.no_chat);
      address = h.address;
      found = h.found;
    } in
    rw (no_wait s.wait_channel_close, process_callback)
      (EndsBoth-map _ _ (rules_and_write st ch now true cb p set u)
        (λ v l. Same-Left id s u v (refl, refl, refl) l)
        (rules-Left st ch now id cb res q p set u ok
          (moved-Here now id q set s u (refl, refl, refl) here)))

undrafted-Here :
    (now id : ℤ) (q : BaseQueue) (c : Cell) (s : Manager)
    → Here now id q c s
    → Here now id q (set_attempt (drop_draft_result c.attempt) c) s
unfolding drop_draft_result
undrafted-Here now id q c s h = record {
  books = h.books;
  own = ground (arith, h.own);
  queued = ground (arith, h.queued);
  no_chat = ground (arith, h.no_chat);
  address = h.address;
  found = h.found;
}

read_heap :
    (p : ℕ) (now id : ℤ) (s : Manager) → lookup p (get_attempt now id s).0.heap ≡ lookup p s.heap
unfolding get_attempt
read_heap p now id s = refl

-- A report that the system makes of an attempt of a queue that is not a chat's, and that the table has,
-- comes to its end, if the books are in order and the store takes the write: the attempt has left the
-- table and the wait group.
pub reporting_attempt-Left :
    (st : Store) (ch : Channels) (now id : ℤ) (cb : AttemptCallback) (res : ReportingResult)
    (q : BaseQueue) (p : ℕ) (c : Cell) (s : Manager)
    → Books s
    → (get_attempt now id s).1 ≡ some p
    → lookup p s.heap ≡ some c
    → c.attempt.member.id ≡ id
    → c.attempt.queue ≡ some q
    → (c.attempt.channel ==s "chat") ≡ false
    → ((r : Request) → ch.callback r ≡ inr res)
    → EndsBoth (Left id s) (reporting_attempt st ch now id cb true false s)
unfolding reporting_attempt report_cell
reporting_attempt-Left st ch now id cb res q p c s b hit cell own queued chat ok =
    let read = (get_attempt now id s).0 in
    let told = or_abandoned cb in
    let here : Here now id q c read = record {
      books = get_attempt-Books now id s b;
      own = own;
      queued = queued;
      no_chat = chat;
      address = p;
      found = read_get now now id id p s b hit ∙ hit;
    } in
    let on = λ (r : Option ℕ). elim r as (λ _. Option (Manager × Ended)) [
      | none ↦ report_unknown ch now true id told read
      | some a ↦ at_cell a read (λ d. report_cell st ch now told true false a d read)
    ] in
    let at = λ (o : Option Cell). elim o as (λ _. Option (Manager × Ended)) [
      | none ↦ none
      | some d ↦ report_cell st ch now told true false p d read
    ] in
    subst (λ r. EndsBoth (Left id s) (on r)) (sym hit)
      (subst (λ o. EndsBoth (Left id s) (at o)) (sym (read_heap p now id s ∙ cell))
        (EndsBoth-map _ _ (report_cell st ch now told true false p c read)
          (λ u l. read_Left now id p s u b hit l)
          (process-Left st ch now id told res q p (set_attempt (drop_draft_result c.attempt) c) read
            ok (undrafted-Here now id q c read here))))

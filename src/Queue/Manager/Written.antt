-- ===== src/Queue/Manager/Written.antt =====
-- The end of `ReportingAttempt` of queue/queue_manager.go, from the write to the store on: the attempt
-- leaves.
use call_center.Prelude.{
  ℕ, ◌≡◌, refl, sym, subst, ◌∙◌, Option, none, some, true, false, inr, arith, ◌==s◌, nat_key,
}
use call_center.Prelude.Int.{ℤ, int_key}
use call_center.Model.{AppError}
use call_center.Model.Member.{AttemptCallback}
use call_center.Queue.State.{Attempt, BaseQueue}
use call_center.Queue.Attempt.{set_callback, set_result, set_member_stop_cause}
use call_center.Queue.Manager.{
  Cell, Request, Manager, send, put_cell, set_attempt, get_attempt, leave_as,
}
use call_center.Queue.Manager.Reporting.{
  ReportingResult, Channels, publish_wrap, reported_attempt, leave_reported, do_leaving_reporting,
  ends_with,
}
use call_center.Queue.Manager.Report.{callback_request, after_callback, write_callback}
use call_center.Queue.Manager.Books.{Books, Same, Same-Books, Left, Ends}
use call_center.Queue.Manager.Leaves.{Ends-map, Same-get, Same-Left, leaving_cell-Out}

-- The method returns, and then this holds of the manager.
abbrev pub EndsBoth {ℓ} : {A : Type ℓ} → (Manager → Type 0) → Option (Manager × A) → Type 0
EndsBoth P none = ⊥
EndsBoth P (some (u, a)) = P u

-- An attempt of a queue, of another channel than the chats', that the table has.
pub record Here (now id : ℤ) (q : BaseQueue) (c : Cell) (s : Manager) : Type 0 where
  pub books : Books s
  pub own : c.attempt.member.id ≡ id
  pub queued : c.attempt.queue ≡ some q
  pub no_chat : (c.attempt.channel ==s "chat") ≡ false
  pub address : ℕ
  pub found : (get_attempt now id s).1 ≡ some address

pub leave_as-Left :
    (now id : ℤ) (q : BaseQueue) (p r : ℕ) (c : Cell) (s : Manager)
    → Books s
    → c.attempt.member.id ≡ id
    → c.attempt.queue ≡ some q
    → (get_attempt now id s).1 ≡ some r
    → Ends (Left id s) (leave_as now p c s)
unfolding leave_as put_cell
leave_as-Left now id q p r c s b own queued found =
    let t = put_cell p c s in
    subst (λ i. Ends (Left i s) (leave_as now p c s)) own
      (Ends-map _ _ (leave_as now p c s)
        (λ u (l, st). Same-Left c.attempt.member.id s t u (refl, refl, refl) l)
        (leaving_cell-Out now p r c q t (Same-Books s t (refl, refl, refl) b) queued (
          subst (λ i. (get_attempt now i t).1 ≡ some r) (sym own)
            (Same-get s t (refl, refl, refl) now id ∙ found))))

told_attempt : AttemptCallback → ReportingResult → Attempt → Attempt
unfolding set_callback set_member_stop_cause
told_attempt cb res a = set_callback cb (set_member_stop_cause res.member_stop_cause a)

reported_attempt-some :
    (cb : AttemptCallback) (res : ReportingResult) (a : Attempt)
    → (a.channel ==s "chat") ≡ false
    → reported_attempt cb res a ≡ some (told_attempt cb res a)
unfolding reported_attempt told_attempt set_callback set_result set_member_stop_cause
reported_attempt-some cb res a h = ground arith

told_attempt-Here :
    (cb : AttemptCallback) (res : ReportingResult) (now id : ℤ) (q : BaseQueue) (c : Cell)
    (s : Manager)
    → Here now id q c s
    → Here now id q (set_attempt (told_attempt cb res c.attempt) c) s
unfolding told_attempt set_callback set_result set_member_stop_cause
told_attempt-Here cb res now id q c s h = record {
  books = h.books;
  own = ground (arith, h.own);
  queued = ground (arith, h.queued);
  no_chat = ground (arith, h.no_chat);
  address = h.address;
  found = h.found;
}

leave_reported-Left :
    (now id : ℤ) (cb : AttemptCallback) (res : ReportingResult) (q : BaseQueue) (p : ℕ) (c : Cell)
    (s : Manager)
    → Here now id q c s
    → Ends (Left id s) (leave_reported now cb res p c s)
unfolding leave_reported
leave_reported-Left now id cb res q p c s h =
    let told = told_attempt-Here cb res now id q c s h in
    rw (reported_attempt-some cb res c.attempt h.no_chat, leave_reported)
      (rw told.queued (
        leave_as-Left now id q p told.address (set_attempt (told_attempt cb res c.attempt) c) s
          told.books told.own told.queued told.found))

pub moved-Here :
    (now id : ℤ) (q : BaseQueue) (c : Cell) (s u : Manager)
    → Same s u
    → Here now id q c s
    → Here now id q c u
moved-Here now id q c s u k h = record {
  books = Same-Books s u k h.books;
  own = h.own;
  queued = h.queued;
  no_chat = h.no_chat;
  address = h.address;
  found = Same-get s u k now id ∙ h.found;
}

publish-Same :
    (ch : Channels) (id : ℤ) (res : ReportingResult) (s : Manager)
    → Same s (publish_wrap ch id res s).0
unfolding publish_wrap
publish-Same ch id res s = ground arith

ended :
    (P : Manager → Type 0) (e : Option AppError) (o : Option Manager)
    → Ends P o
    → EndsBoth P (ends_with e o)
ended P e none k = k
ended P e (some s) k = k

do_leaving-Left :
    (ch : Channels) (now id : ℤ) (cb : AttemptCallback) (res : ReportingResult) (q : BaseQueue)
    (p : ℕ) (c : Cell) (s : Manager)
    → Here now id q c s
    → EndsBoth (Left id s) (do_leaving_reporting ch now cb res p c s)
unfolding do_leaving_reporting
do_leaving-Left ch now id cb res q p c s h =
    let own = c.attempt.member.id in
    let told = (publish_wrap ch own res s).0 in
    let same = publish-Same ch own res s in
    ended (Left id s) (publish_wrap ch own res s).1 (leave_reported now cb res p c told) (
      Ends-map _ _ (leave_reported now cb res p c told) (λ u l. Same-Left id s told u same l)
        (leave_reported-Left now id cb res q p c told (moved-Here now id q c s told same h)))

pub EndsBoth-map :
    {A : Type 0}
    → (P Q : Manager → Type 0) (o : Option (Manager × A)) → ((u : Manager) → P u → Q u)
    → EndsBoth P o
    → EndsBoth Q o
EndsBoth-map P Q none f p = p
EndsBoth-map P Q (some (u, a)) f p = f u p

pub write-Left :
    (ch : Channels) (now id : ℤ) (cb : AttemptCallback) (res : ReportingResult) (q : BaseQueue)
    (p : ℕ) (c : Cell) (s : Manager)
    → ((r : Request) → ch.callback r ≡ inr res)
    → Here now id q c s
    → EndsBoth (Left id s) (write_callback ch now true cb p c s)
unfolding write_callback after_callback
write-Left ch now id cb res q p c s ok h =
    let write = callback_request cb c.attempt in
    let told = send write s in
    rw (ok write, write_callback)
      (EndsBoth-map _ _ (do_leaving_reporting ch now cb res p c told)
        (λ u l. Same-Left id s told u (refl, refl, refl) l)
        (do_leaving-Left ch now id cb res q p c told
          (moved-Here now id q c s told (refl, refl, refl) h)))

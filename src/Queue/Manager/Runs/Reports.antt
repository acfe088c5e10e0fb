-- ===== src/Queue/Manager/Runs/Reports.antt =====
-- `ReportingAttempt` of queue/queue_manager.go keeps the books.
use call_center.Prelude.{
  ℕ, ◌≡◌, refl, subst, Option, none, some, Option-cases, Bool, Bool-cases, true, false, not, ◌&&◌,
  String, ◌⊎◌, inl, inr, nat_key, if◌then◌else◌,
}
use call_center.Prelude.Int.{ℤ, int_key}
use call_center.Prelude.StringMap.{lookup}
use call_center.Model.{AppError}
use call_center.Model.Member.{AttemptCallback}
use call_center.Queue.Attempt.{use_draft, drop_draft_result, set_callback}
use call_center.Queue.Manager.{
  Cell, Request, Store, Manager, send, put_cell, set_attempt, get_attempt,
}
use call_center.Queue.Manager.Reporting.{
  ReportingResult, Channels, set_channel_reporting, stops, apply_rules, close_before_reporting,
  publish_wrap, reported_attempt, leave_reported, do_leaving_reporting, ends_with,
}
use call_center.Queue.Manager.Report.{
  at_cell, callback_request, or_abandoned, after_callback, write_callback, rules_and_write,
  process_callback, keep_draft, report_cell, close_unknown_channel, close_unknown, after_unknown,
  report_unknown, reporting_attempt,
}
use call_center.Queue.Manager.Books.{Books, Same, Same-Books, IfDone, get_attempt-Books}
use call_center.Queue.Manager.Runs.{
  IfBoth, leave_as-Books, put_cell-Books, send-Books, after_method-Books,
}
use call_center.Queue.Manager.Runs.Channels.{
  set_channel_reporting-Same, close_before_reporting-Same, publish_wrap-Same,
}

publish_wrap-Books :
    (ch : Channels) (id : ℤ) (res : ReportingResult) (s : Manager)
    → Books s
    → Books (publish_wrap ch id res s).0
publish_wrap-Books ch id res s b =
    Same-Books s (publish_wrap ch id res s).0 (publish_wrap-Same ch id res s) b

leave_reported-Books :
    (now : ℤ) (cb : AttemptCallback) (res : ReportingResult) (p : ℕ) (c : Cell) (s : Manager)
    → Books s
    → IfDone Books (leave_reported now cb res p c s)
unfolding leave_reported
leave_reported-Books now cb res p c s b = elim (Option-cases (reported_attempt cb res c.attempt)) [
  | inl h ↦ rw (h, leave_reported) tt
  | inr (a, h) ↦ elim (Option-cases a.queue) [
    | inl k ↦ rw (h, leave_reported) (rw k tt)
    | inr (q, k) ↦ rw (h, leave_reported) (rw k (leave_as-Books now p (set_attempt a c) s b))
  ]
]

ends_with-Books :
    (e : Option AppError) (o : Option Manager) → IfDone Books o → IfBoth Books (ends_with e o)
ends_with-Books e none k = tt
ends_with-Books e (some s) k = k

do_leaving_reporting-Books :
    (ch : Channels) (now : ℤ) (cb : AttemptCallback) (res : ReportingResult) (p : ℕ) (c : Cell)
    (s : Manager)
    → Books s
    → IfBoth Books (do_leaving_reporting ch now cb res p c s)
unfolding do_leaving_reporting
do_leaving_reporting-Books ch now cb res p c s b =
    let told = publish_wrap ch c.attempt.member.id res s in
    ends_with-Books told.1 (leave_reported now cb res p c told.0) (
      leave_reported-Books now cb res p c told.0
        (publish_wrap-Books ch c.attempt.member.id res s b))

at_cell-Books :
    {A : Type 0}
    → (p : ℕ) (s : Manager) (f : Cell → Option (Manager × A)) → ((c : Cell) → IfBoth Books (f c))
    → IfBoth Books (at_cell p s f)
at_cell-Books {A} p s f k =
    elim (lookup p s.heap)
      as (λ o.
        IfBoth Books (elim o as (λ _. Option (Manager × A)) [ none ↦ none | some c ↦ f c ])) [
          | none ↦ tt
          | some c ↦ k c
        ]

after_callback-Books :
    (ch : Channels) (now : ℤ) (system : Bool) (cb : AttemptCallback) (res : ReportingResult) (p : ℕ)
    (c : Cell) (s : Manager)
    → Books s
    → IfBoth Books (after_callback ch now system cb res p c s)
unfolding after_callback
after_callback-Books ch now true cb res p c s b = do_leaving_reporting-Books ch now cb res p c s b
after_callback-Books ch now false cb res p c s b =
    elim (Option-cases (close_before_reporting ch now cb.status res p c s)) [
      | inl h ↦ rw (h, after_callback) tt
      | inr (u, h) ↦
          rw (h, after_callback)
            (at_cell-Books p u (λ d. do_leaving_reporting ch now cb res p d u)
              (λ d. do_leaving_reporting-Books ch now cb res p d u (
                Same-Books s u
                  (subst (λ o. IfDone (Same s) o) h
                    (close_before_reporting-Same ch now cb.status res p c s))
                  b)))
    ]

sum_cases : {A B : Type 0} → (x : A ⊎ B) → ((a : A) × (x ≡ inl a)) ⊎ ((b : B) × (x ≡ inr b))
sum_cases (inl a) = inl (a, refl)
sum_cases (inr b) = inr (b, refl)

write_callback-Books :
    (ch : Channels) (now : ℤ) (system : Bool) (cb : AttemptCallback) (p : ℕ) (c : Cell)
    (s : Manager)
    → Books s
    → IfBoth Books (write_callback ch now system cb p c s)
unfolding write_callback
write_callback-Books ch now system cb p c s b =
    elim (sum_cases (ch.callback (callback_request cb c.attempt))) [
      | inl (e, h) ↦ rw (h, write_callback) (send-Books _ s b)
      | inr (res, h) ↦
          rw (h, write_callback)
            (after_callback-Books ch now system cb res p c _ (send-Books _ s b))
    ]

rules_and_write-Books :
    (st : Store) (ch : Channels) (now : ℤ) (system : Bool) (cb : AttemptCallback) (p : ℕ) (c : Cell)
    (s : Manager)
    → Books s
    → IfBoth Books (rules_and_write st ch now system cb p c s)
unfolding rules_and_write apply_rules
rules_and_write-Books st ch now system cb p c s b =
    let ruled = apply_rules st now cb p c s in
    at_cell-Books p ruled.0 (λ d. write_callback ch now system ruled.1 p d ruled.0)
      (λ d. write_callback-Books ch now system ruled.1 p d ruled.0 (after_method-Books p c _ s b))

process_callback-Books :
    (st : Store) (ch : Channels) (now : ℤ) (system : Bool) (cb : AttemptCallback) (p : ℕ) (c : Cell)
    (s : Manager)
    → Books s
    → IfBoth Books (process_callback st ch now system cb p c s)
unfolding process_callback
process_callback-Books st ch now system cb p c s b =
    let set = set_attempt (set_callback cb c.attempt) c in
    let u = put_cell p set s in
    let books = put_cell-Books p set s b in
    elim (Bool-cases (s.wait_channel_close && not system)) [
      | inr h ↦ rw (h, process_callback) (rules_and_write-Books st ch now system cb p set u books)
      | inl h ↦ elim (Option-cases (set_channel_reporting ch now cb.status true p set u)) [
        | inl k ↦ rw (h, process_callback) (rw k tt)
        | inr ((v, r), k) ↦
            let kept : Same u v =
              subst (λ o. IfBoth (Same u) o) k
                (set_channel_reporting-Same ch now cb.status true p set u) in
            elim (Bool-cases (stops set.attempt r)) [
              | inl e ↦ rw (h, process_callback) (rw k (rw e (Same-Books u v kept books)))
              | inr e ↦
                  rw (h, process_callback)
                    (rw k (
                      rw e (
                        at_cell-Books p v (λ d. rules_and_write st ch now system cb p d v)
                          (λ d.
                            rules_and_write-Books st ch now system cb p d v
                              (Same-Books u v kept books)))))
            ]
      ]
    ]

keep_draft-Books :
    (ch : Channels) (now : ℤ) (cb : AttemptCallback) (p : ℕ) (c : Cell) (s : Manager)
    → Books s
    → IfBoth Books (keep_draft ch now cb p c s)
unfolding keep_draft
keep_draft-Books ch now cb p c s b =
    let set = set_attempt (use_draft (some cb) c.attempt) c in
    let u = put_cell p set s in
    elim (Option-cases (set_channel_reporting ch now cb.status false p set u)) [
      | inl h ↦ rw (h, keep_draft) tt
      | inr ((v, r), h) ↦
          rw (h, keep_draft)
            (Same-Books u v
              (subst (λ o. IfBoth (Same u) o) h
                (set_channel_reporting-Same ch now cb.status false p set u))
              (put_cell-Books p set s b))
    ]

report_cell-Books :
    (st : Store) (ch : Channels) (now : ℤ) (cb : AttemptCallback) (system draft : Bool) (p : ℕ)
    (c : Cell) (s : Manager)
    → Books s
    → IfBoth Books (report_cell st ch now cb system draft p c s)
unfolding report_cell
report_cell-Books st ch now cb system true p c s b = keep_draft-Books ch now cb p c s b
report_cell-Books st ch now cb system false p c s b =
    process_callback-Books st ch now system cb p (set_attempt (drop_draft_result c.attempt) c) s b

either-Books : (b : Bool) (s u : Manager) → Books s → Books u → Books (if b then s else u)
either-Books true s u k l = k
either-Books false s u k l = l

close_unknown_channel-Books :
    (ch : Channels) (now id : ℤ) (cause channel call_id : String) (s : Manager)
    → Books s
    → Books (close_unknown_channel ch now id cause channel call_id s)
unfolding close_unknown_channel
close_unknown_channel-Books ch now id cause channel call_id s b =
    either-Books _ _ _ (either-Books _ _ _ (send-Books _ s b) b)
      (either-Books _ _ _ (get_attempt-Books now id s b) b)

close_unknown-Books :
    (ch : Channels) (now id : ℤ) (cause : String) (res : ReportingResult) (s : Manager)
    → Books s
    → Books (close_unknown ch now id cause res s)
unfolding close_unknown
close_unknown-Books ch now id cause res s b = elim (Option-cases res.channel) [
  | inl h ↦ rw (h, close_unknown) b
  | inr (channel, h) ↦ elim (Option-cases res.agent_call_id) [
    | inl k ↦ rw (h, close_unknown) (rw k b)
    | inr (call_id, k) ↦
        rw (h, close_unknown)
          (rw k (close_unknown_channel-Books ch now id cause channel call_id s b))
  ]
]

after_unknown-Books :
    (ch : Channels) (now : ℤ) (system : Bool) (id : ℤ) (cb : AttemptCallback)
    (res : ReportingResult) (s : Manager)
    → Books s
    → Books (after_unknown ch now system id cb res s).0
unfolding after_unknown
after_unknown-Books ch now system id cb res s b =
    publish_wrap-Books ch id res _
      (either-Books system s _ b (close_unknown-Books ch now id cb.status res s b))

report_unknown-Books :
    (ch : Channels) (now : ℤ) (system : Bool) (id : ℤ) (cb : AttemptCallback) (s : Manager)
    → Books s
    → IfBoth Books (report_unknown ch now system id cb s)
unfolding report_unknown
report_unknown-Books ch now system id cb s b =
    let write = Request.callback_written id cb 0 0 false in
    elim (sum_cases (ch.callback write)) [
      | inl (e, h) ↦ rw (h, report_unknown) (send-Books write s b)
      | inr (res, h) ↦
          rw (h, report_unknown)
            (after_unknown-Books ch now system id cb res (send write s) (send-Books write s b))
    ]

pub reporting_attempt-Books :
    (st : Store) (ch : Channels) (now id : ℤ) (cb : AttemptCallback) (system draft : Bool)
    (s : Manager)
    → Books s
    → IfBoth Books (reporting_attempt st ch now id cb system draft s)
unfolding reporting_attempt
reporting_attempt-Books st ch now id cb system draft s b =
    let read = (get_attempt now id s).0 in
    let books = get_attempt-Books now id s b in
    elim (Option-cases (get_attempt now id s).1) [
      | inl h ↦
          rw (h, reporting_attempt)
            (report_unknown-Books ch now system id (or_abandoned cb) read books)
      | inr (p, h) ↦
          rw (h, reporting_attempt)
            (at_cell-Books p read
              (λ c. report_cell st ch now (or_abandoned cb) system draft p c read)
              (λ c. report_cell-Books st ch now (or_abandoned cb) system draft p c read books))
    ]

-- ===== src/Queue/Manager/Report.antt =====
-- queue/queue_manager.go, `ReportingAttempt`, `closeAttempts` and `Stop`'s use of it.
use call_center.Prelude.{
  ℕ, String, Option, none, some, [], Bool, true, false, not, ◌&&◌, ◌||◌, ◌==s◌, string_key,
  if◌then◌else◌, inl, inr, nat_key,
}
use call_center.Prelude.Int.{ℤ}
use call_center.Prelude.StringMap.{lookup, insert}
use call_center.Model.{AppError}
use call_center.Model.Queue.{channel_call, channel_out_call, channel_im, channel_task}
use call_center.Model.Member.{AttemptCallback}
use call_center.Queue.State.{Attempt}
use call_center.Queue.Attempt.{use_draft, drop_draft_result, set_callback}
use call_center.Queue.Manager.{
  Cell, Request, Store, Manager, send, put_cell, set_attempt, get_attempt,
}
use call_center.Queue.Manager.Reporting.{
  ReportingResult, Channels, Report, Ended, stopped, left, drafted, set_channel_reporting, stops,
  apply_rules, close_before_reporting, publish_wrap, do_leaving_reporting,
}

-- The cell at an address, as it stands by now.
abbrev pub at_cell : {A : Type 0} → ℕ → Manager → (Cell → Option A) → Option A
at_cell p s f = elim (lookup p s.heap) [ none ↦ none | some c ↦ f c ]

abbrev pub or_abandoned : AttemptCallback → AttemptCallback
or_abandoned cb = record cb { status = if cb.status ==s "" then "abandoned" else cb.status }

-- The write of the report, with the settings of the attempt.
abbrev pub callback_request : AttemptCallback → Attempt → Request
callback_request cb a =
    Request.callback_written a.member.id cb a.max_attempts a.wait_between a.per_numbers

-- After the write: the channel is closed unless the system reports, and the attempt leaves.
unfoldable pub after_callback :
    Channels
    → ℤ
    → Bool
    → AttemptCallback
    → ReportingResult
    → ℕ
    → Cell
    → Manager
    → Option (Manager × Ended)
unfolding close_before_reporting lookup do_leaving_reporting
after_callback ch now system cb res p c s =
    if system
    then do_leaving_reporting ch now cb res p c s
    else elim (close_before_reporting ch now cb.status res p c s) [
      | none ↦ none
      | some u ↦ at_cell p u (λ d. do_leaving_reporting ch now cb res p d u)
    ]

unfoldable pub write_callback :
    Channels → ℤ → Bool → AttemptCallback → ℕ → Cell → Manager → Option (Manager × Ended)
unfolding after_callback
write_callback ch now system cb p c s =
    let write = callback_request cb c.attempt in
    elim (ch.callback write) [
      | inl e ↦ some (send write s, stopped (Report.failed e))
      | inr res ↦ after_callback ch now system cb res p c (send write s)
    ]

-- The rules, and then the write of what they leave of the callback.
unfoldable pub rules_and_write :
    Store → Channels → ℤ → Bool → AttemptCallback → ℕ → Cell → Manager → Option (Manager × Ended)
unfolding apply_rules lookup write_callback
rules_and_write st ch now system cb p c s =
    let (u, merged) = apply_rules st now cb p c s in
    at_cell p u (λ d. write_callback ch now system merged p d u)

-- `processAttemptCallback` for an attempt that was found: the channel is told first, where the agent
-- reports and the manager waits for channels; an error of it stops the report, but in the form.
unfoldable pub process_callback :
    Store → Channels → ℤ → Bool → AttemptCallback → ℕ → Cell → Manager → Option (Manager × Ended)
unfolding set_callback put_cell set_channel_reporting lookup rules_and_write
process_callback st ch now system cb p c s =
    let set = set_attempt (set_callback cb c.attempt) c in
    let u = put_cell p set s in
    if s.wait_channel_close && not system
    then elim (set_channel_reporting ch now cb.status true p set u) [
      | none ↦ none
      | some (v, r) ↦
          if stops set.attempt r
          then some (v, stopped r)
          else at_cell p v (λ d. rules_and_write st ch now system cb p d v)
    ]
    else rules_and_write st ch now system cb p set u

-- A draft is kept, and the channel is told; its error is only logged.
unfoldable pub keep_draft :
    Channels → ℤ → AttemptCallback → ℕ → Cell → Manager → Option (Manager × Ended)
unfolding use_draft put_cell set_channel_reporting
keep_draft ch now cb p c s =
    let set = set_attempt (use_draft (some cb) c.attempt) c in
    elim (set_channel_reporting ch now cb.status false p set (put_cell p set s)) [
      | none ↦ none
      | some (u, r) ↦ some (u, drafted)
    ]

unfoldable pub report_cell :
    Store
    → Channels
    → ℤ
    → AttemptCallback
    → Bool
    → Bool
    → ℕ
    → Cell
    → Manager
    → Option (Manager × Ended)
unfolding keep_draft drop_draft_result process_callback
report_cell st ch now cb system draft p c s =
    if draft
    then keep_draft ch now cb p c s
    else process_callback st ch now system cb p (set_attempt (drop_draft_result c.attempt) c) s

-- `closeBeforeReporting` without an attempt: the agent's call is hung up, a chat is left, and for a task
-- the table is asked once more, in vain; errors are only logged.
unfoldable pub close_unknown_channel :
    Channels → ℤ → ℤ → String → String → String → Manager → Manager
unfolding insert get_attempt
close_unknown_channel ch now id cause channel call_id s =
    if (channel ==s channel_call) || (channel ==s channel_out_call)
    then if ch.has_call call_id
      then send (Request.call_hangup call_id (insert "cc_result" cause [])) s
      else s
    else if (channel ==s channel_im) || (channel ==s channel_task)
    then (get_attempt now id s).0
    else s

unfoldable pub close_unknown : Channels → ℤ → ℤ → String → ReportingResult → Manager → Manager
unfolding close_unknown_channel
close_unknown ch now id cause res s = elim res.channel [
  | none ↦ s
  | some channel ↦ elim res.agent_call_id [
    | none ↦ s
    | some call_id ↦ close_unknown_channel ch now id cause channel call_id s
  ]
]

-- After the write of a report on an attempt that the table does not have: the channel is closed unless
-- the system reports, and the agent's client is told.
unfoldable pub after_unknown :
    Channels
    → ℤ
    → Bool
    → ℤ
    → AttemptCallback
    → ReportingResult
    → Manager
    → Manager × Option AppError
unfolding close_unknown publish_wrap
after_unknown ch now system id cb res s =
    publish_wrap ch id res (if system then s else close_unknown ch now id cb.status res s)

unfoldable pub report_unknown :
    Channels → ℤ → Bool → ℤ → AttemptCallback → Manager → Option (Manager × Ended)
unfolding after_unknown
report_unknown ch now system id cb s =
    let write = Request.callback_written id cb 0 0 false in
    elim (ch.callback write) [
      | inl e ↦ some (send write s, stopped (Report.failed e))
      | inr res ↦
          let (u, e) = after_unknown ch now system id cb res (send write s) in some (u, left e)
    ]

-- `ReportingAttempt`
unfoldable pub reporting_attempt :
    Store → Channels → ℤ → ℤ → AttemptCallback → Bool → Bool → Manager → Option (Manager × Ended)
unfolding get_attempt lookup report_cell report_unknown
reporting_attempt st ch now id cb system draft s =
    let (read, hit) = get_attempt now id s in
    elim hit [
      | none ↦ report_unknown ch now system id (or_abandoned cb) read
      | some p ↦ at_cell p read (λ c. report_cell st ch now (or_abandoned cb) system draft p c read)
    ]

-- ===== src/Queue/Manager/Reporting.antt =====
-- queue/queue_manager.go, `ReportingAttempt` and what it calls: the report of an agent, or of the
-- system, on an attempt. Calls and chats are services, tasks are those of Queue/Task. The wait of up
-- to a second for the end of the member's call is left out.
use call_center.Prelude.{
  ℕ, String, Option, none, some, [], Bool, false, not, ◌&&◌, ◌||◌, ◌==s◌, if◌then◌else◌, ◌⊎◌, inl,
  inr, string_key, nat_key,
}
use call_center.Prelude.Int.{ℤ, pos, ◌==ℤ◌, ltb_ℤ}
use call_center.Prelude.Fmt.{show_int}
use call_center.Prelude.StringMap.{insert}
use call_center.Model.{AppError, new_app_error}
use call_center.Model.Maps.{StringMap}
use call_center.Model.Member.{AttemptCallback}
use call_center.Model.Queue.{channel_call, channel_out_call, channel_chat, channel_task, channel_im}
use call_center.Queue.State.{Attempt}
use call_center.Queue.Task.{Step, reporting, returns, blocks}
use call_center.Queue.Attempt.{set_callback, set_member_stop_cause, set_cancel}
use call_center.Queue.Attempt.Schema.{apply_callback_rules}
use call_center.Queue.Manager.{
  Cell, ChannelData, Request, Store, Manager, send, put_cell, set_attempt, after_method, leave_as,
}

-- model/member.go, `AttemptReportingResult`.
pub record ReportingResult : Type 0 where
  pub timestamp : ℤ
  pub channel : Option String
  pub agent_call_id : Option String
  pub user_id : Option ℤ
  pub domain_id : Option ℤ
  pub queue_id : Option ℤ
  pub agent_timeout : Option ℤ
  pub member_stop_cause : Option String

-- What the other services answer: which calls and chats there are, and their errors.
pub record Channels : Type 0 where
  pub has_call : String → Bool
  pub hangs_up : String → Option AppError
  pub has_chat : String → Bool
  pub chat_error : String → Option AppError
  pub no_chat : AppError
  pub callback : Request → AppError ⊎ ReportingResult
  pub published : Option AppError

-- How a method ends: `errNotFoundConnection`, another error, or none.
pub data Report : Type 0 where
  reported not_found : Report
  failed : AppError → Report

abbrev pub of_error : Option AppError → Report
of_error none = reported
of_error (some e) = failed e

-- `getAgentTaskFromAttemptId`, of the attempt that was found, and then `Reporting` of the task.
abbrev err_no_task : AppError
err_no_task =
    new_app_error "Queue.AcceptAgentTask" "queue.task.accept.valid.channel" "not a agent task"
      (pos 400)

-- What a step of the task leaves; none is a wait for a receiver.
unfoldable pub after_task : ℕ → Cell → Manager → Step → Option (Manager × (AppError ⊎ Report))
unfolding put_cell
after_task p c s (returns e u) =
    some (put_cell p (record c { channel_data = ChannelData.task_data u }) s, inr (of_error e))
after_task p c s (blocks u) = none

unfoldable pub report_data :
    ℤ → ℕ → Cell → Manager → ChannelData → Option (Manager × (AppError ⊎ Report))
unfolding reporting new_app_error after_task
report_data now p c s ChannelData.no_data = some (s, inl err_no_task)
report_data now p c s ChannelData.other_data = some (s, inl err_no_task)
report_data now p c s (ChannelData.task_data t) = after_task p c s (reporting now now t)

unfoldable pub report_task : ℤ → ℕ → Cell → Manager → Option (Manager × (AppError ⊎ Report))
unfolding report_data
report_task now p c s = report_data now p c s c.channel_data

unfoldable pub call_result : ℤ → String → StringMap
unfolding insert show_int
call_result now cause = insert "cc_reporting_at" (show_int now) (insert "cc_result" cause [])

abbrev pub as_not_found : Option (Manager × (AppError ⊎ Report)) → Option (Manager × Report)
as_not_found none = none
as_not_found (some (s, inl e)) = some (s, not_found)
as_not_found (some (s, inr r)) = some (s, r)

-- `setChannelReporting` on the agent's channel of an id; an error of a call is only logged.
unfoldable pub report_channel :
    Channels → ℤ → String → Bool → ℕ → Cell → String → Manager → Option (Manager × Report)
unfolding call_result report_task
report_channel ch now cause leave p c id s =
    if c.attempt.channel ==s channel_call
    then if ch.has_call id
      then some (send (Request.call_variables id (call_result now cause)) s, reported)
      else some (s, not_found)
    else if c.attempt.channel ==s channel_chat
    then if ch.has_chat id
      then some (send (Request.chat_reported id leave) s, of_error (ch.chat_error id))
      else some (s, not_found)
    else if c.attempt.channel ==s channel_task
    then as_not_found (report_task now p c s)
    else some (s, reported)

unfoldable pub set_channel_reporting :
    Channels → ℤ → String → Bool → ℕ → Cell → Manager → Option (Manager × Report)
unfolding report_channel
set_channel_reporting ch now cause leave p c s = elim c.attempt.agent_channel [
  | none ↦ some (s, not_found)
  | some agent ↦ report_channel ch now cause leave p c agent.id s
]

-- Whether an error of the channel stops the report.
abbrev pub stops : Attempt → Report → Bool
stops a reported = false
stops a not_found = false
stops a (failed e) = not (a.state ==s "processing")

-- `ApplyCallbackRules`, with the callback that it leaves.
unfoldable pub apply_rules :
    Store → ℤ → AttemptCallback → ℕ → Cell → Manager → Manager × AttemptCallback
unfolding apply_callback_rules after_method
apply_rules st now cb p c s =
    let (w, merged) =
      apply_callback_rules st.flow now cb (record { attempt = c.attempt; effects = [] }) in
    (after_method p c w s, merged)

-- How `ReportingAttempt` ends: with an error before the attempt leaves, or with what the broker said.
pub data Ended : Type 0 where
  stopped : Report → Ended
  left : Option AppError → Ended
  drafted : Ended

-- `closeBeforeReporting`; its error is only logged. none is a chat of a member without a channel.
unfoldable pub close_channel :
    Channels → ℤ → String → String → String → ℕ → Cell → Manager → Option Manager
unfolding insert report_task
close_channel ch now cause channel call_id p c s =
    if (channel ==s channel_call) || (channel ==s channel_out_call)
    then if ch.has_call call_id
      then some (send (Request.call_hangup call_id (insert "cc_result" cause [])) s)
      else some s
    else if channel ==s channel_chat
    then if c.attempt.transferred_at ==ℤ pos 0
      then elim c.attempt.member_channel [
        | none ↦ none
        | some m ↦
            if ch.has_chat m.id then some (send (Request.chat_reported m.id false) s) else some s
      ]
      else some s
    else if (channel ==s channel_im) || (channel ==s channel_task)
    then elim (report_task now p c s) [ none ↦ none | some (u, e) ↦ some u ]
    else some s

unfoldable pub close_before_reporting :
    Channels → ℤ → String → ReportingResult → ℕ → Cell → Manager → Option Manager
unfolding close_channel
close_before_reporting ch now cause res p c s = elim res.channel [
  | none ↦ some s
  | some channel ↦ elim res.agent_call_id [
    | none ↦ some s
    | some call_id ↦ close_channel ch now cause channel call_id p c s
  ]
]

abbrev or_zero : Option ℤ → ℤ
or_zero none = pos 0
or_zero (some z) = z

abbrev or_none : Option String → String
or_none none = ""
or_none (some s) = s

abbrev pub wrap_timeout : Option ℤ → ℤ
wrap_timeout none = pos 0
wrap_timeout (some t) = if ltb_ℤ (pos 0) t then t else pos 0

-- The event of the end for the agent's client, if the store names the user and the domain.
unfoldable pub publish_wrap : Channels → ℤ → ReportingResult → Manager → Manager × Option AppError
publish_wrap ch id res s = elim res.user_id [
  | none ↦ (s, none)
  | some user ↦ elim res.domain_id [
    | none ↦ (s, none)
    | some domain ↦ (
      send
          (Request.wrap_event (or_none res.channel) domain (or_zero res.queue_id) user id
            res.timestamp (wrap_timeout res.agent_timeout))
          s,
      ch.published,
    )
  ]
]

abbrev waits_in_chat : Attempt → Bool
waits_in_chat a = (a.channel ==s channel_chat) && (a.state ==s "wait_agent") && not a.canceled

-- What the report leaves of the attempt; none is a cancel of a closed channel.
unfoldable pub reported_attempt : AttemptCallback → ReportingResult → Attempt → Option Attempt
unfolding set_member_stop_cause set_callback set_cancel
reported_attempt cb res a =
    let set = set_callback cb (set_member_stop_cause res.member_stop_cause a) in
    if waits_in_chat set then set_cancel set else some set

abbrev pub ends_with : Option AppError → Option Manager → Option (Manager × Ended)
ends_with e none = none
ends_with e (some s) = some (s, left e)

-- `doLeavingReporting`; an attempt without a queue panics.
unfoldable pub leave_reported :
    ℤ → AttemptCallback → ReportingResult → ℕ → Cell → Manager → Option Manager
unfolding reported_attempt leave_as
leave_reported now cb res p c s = elim (reported_attempt cb res c.attempt) [
  | none ↦ none
  | some a ↦ elim a.queue [ none ↦ none | some q ↦ leave_as now p (set_attempt a c) s ]
]

unfoldable pub do_leaving_reporting :
    Channels → ℤ → AttemptCallback → ReportingResult → ℕ → Cell → Manager → Option (Manager × Ended)
unfolding publish_wrap leave_reported
do_leaving_reporting ch now cb res p c s =
    let (told, e) = publish_wrap ch c.attempt.member.id res s in
    ends_with e (leave_reported now cb res p c told)

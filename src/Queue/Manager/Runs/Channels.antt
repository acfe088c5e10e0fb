-- ===== src/Queue/Manager/Runs/Channels.antt =====
-- The channels of queue/queue_manager.go that a report tells or closes: neither the table nor the wait
-- group changes.
use call_center.Prelude.{
  ℕ, refl, Option, none, some, Option-cases, Bool, String, ◌⊎◌, inl, inr, arith, nat_key,
}
use call_center.Prelude.Int.{ℤ, int_key}
use call_center.Model.{AppError}
use call_center.Queue.Task.{Step, returns, blocks, reporting}
use call_center.Queue.Manager.{Cell, ChannelData, Manager, put_cell}
use call_center.Queue.Manager.Reporting.{
  ReportingResult, Channels, Report, after_task, report_data, as_not_found, report_task,
  report_channel, set_channel_reporting, close_channel, close_before_reporting, publish_wrap,
}
use call_center.Queue.Manager.Books.{Same, IfDone}
use call_center.Queue.Manager.Runs.{IfBoth}

step-Same : (p : ℕ) (c : Cell) (s : Manager) (r : Step) → IfBoth (Same s) (after_task p c s r)
unfolding after_task put_cell
step-Same p c s (returns e u) = (refl, refl, refl)
step-Same p c s (blocks u) = tt

task-Same :
    (now : ℤ) (p : ℕ) (c : Cell) (s : Manager) (d : ChannelData)
    → IfBoth (Same s) (report_data now p c s d)
unfolding report_data
task-Same now p c s ChannelData.no_data = (refl, refl, refl)
task-Same now p c s ChannelData.other_data = (refl, refl, refl)
task-Same now p c s (ChannelData.task_data t) = step-Same p c s (reporting now now t)

report_task-Same :
    (now : ℤ) (p : ℕ) (c : Cell) (s : Manager) → IfBoth (Same s) (report_task now p c s)
unfolding report_task
report_task-Same now p c s = task-Same now p c s c.channel_data

as_not_found-Same :
    (s : Manager) (o : Option (Manager × (AppError ⊎ Report)))
    → IfBoth (Same s) o
    → IfBoth (Same s) (as_not_found o)
as_not_found-Same s none k = tt
as_not_found-Same s (some (u, inl e)) k = k
as_not_found-Same s (some (u, inr r)) k = k

report_channel-Same :
    (ch : Channels) (now : ℤ) (cause : String) (leave : Bool) (p : ℕ) (c : Cell) (id : String)
    (s : Manager)
    → IfBoth (Same s) (report_channel ch now cause leave p c id s)
unfolding report_channel
report_channel-Same ch now cause leave p c id s =
    let task = as_not_found-Same s (report_task now p c s) (report_task-Same now p c s) in
    ground (arith, task)

pub set_channel_reporting-Same :
    (ch : Channels) (now : ℤ) (cause : String) (leave : Bool) (p : ℕ) (c : Cell) (s : Manager)
    → IfBoth (Same s) (set_channel_reporting ch now cause leave p c s)
unfolding set_channel_reporting
set_channel_reporting-Same ch now cause leave p c s = elim (Option-cases c.attempt.agent_channel) [
  | inl h ↦ rw (h, set_channel_reporting) (refl, refl, refl)
  | inr (g, h) ↦ rw (h, set_channel_reporting) (report_channel-Same ch now cause leave p c g.id s)
]

first_of :
    {A : Type 0}
    → (s : Manager) (o : Option (Manager × A)) → IfBoth (Same s) o
    → IfDone (Same s) (elim o as (λ _. Option Manager) [ none ↦ none | some (u, a) ↦ some u ])
first_of s none k = tt
first_of s (some (u, a)) k = k

close_channel-Same :
    (ch : Channels) (now : ℤ) (cause channel call_id : String) (p : ℕ) (c : Cell) (s : Manager)
    → IfDone (Same s) (close_channel ch now cause channel call_id p c s)
unfolding close_channel
close_channel-Same ch now cause channel call_id p c s =
    let task = first_of s (report_task now p c s) (report_task-Same now p c s) in
    ground (arith, task)

pub close_before_reporting-Same :
    (ch : Channels) (now : ℤ) (cause : String) (res : ReportingResult) (p : ℕ) (c : Cell)
    (s : Manager)
    → IfDone (Same s) (close_before_reporting ch now cause res p c s)
unfolding close_before_reporting
close_before_reporting-Same ch now cause res p c s = elim (Option-cases res.channel) [
  | inl h ↦ rw (h, close_before_reporting) (refl, refl, refl)
  | inr (channel, h) ↦ elim (Option-cases res.agent_call_id) [
    | inl k ↦ rw (h, close_before_reporting) (rw k (refl, refl, refl))
    | inr (call_id, k) ↦
        rw (h, close_before_reporting)
          (rw k (close_channel-Same ch now cause channel call_id p c s))
  ]
]

pub publish_wrap-Same :
    (ch : Channels) (id : ℤ) (res : ReportingResult) (s : Manager)
    → Same s (publish_wrap ch id res s).0
unfolding publish_wrap
publish_wrap-Same ch id res s = ground arith

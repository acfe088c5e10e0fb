-- ===== src/Queue/Task/Tests.antt =====
-- The theorems on task channels, at short sequences of calls.
use call_center.Prelude.{◌≡◌, refl, [], ◌∷◌}
use call_center.Prelude.Int.{pos}
use call_center.Queue.Task.{
  TaskChannel, TaskState, answers, closes, reports, receives, act, run, ends, receive_waits,
  new_task_channel,
}
use call_center.Queue.Task.Laws.{
  Keeps, left, NoCallWaits, run-Keeps, run-new_task_channel, run-unserved, WaitsClosed,
}

abbrev task : TaskChannel
task = record {
  id = "42";
  state = TaskState.idle;
  state_c = [];
  created_at = pos 1;
  bridged_at = pos 0;
  closed_at = pos 0;
  reporting_at = pos 0;
}

run-Keeps_example : Keeps task (left (run (answers (pos 2) ∷ answers (pos 3) ∷ []) task))
run-Keeps_example = run-Keeps (answers (pos 2) ∷ answers (pos 3) ∷ []) task

run-new_task_channel_example : NoCallWaits (
    run
      (answers (pos 2) ∷ receives ∷ closes (pos 3) ∷ reports (pos 4) (pos 5) ∷ [])
      (new_task_channel (pos 1) "42"))
run-new_task_channel_example =
    run-new_task_channel (pos 1) (pos 2) "42" (closes (pos 3) ∷ reports (pos 4) (pos 5) ∷ []) refl
      (refl, (refl, tt))

abbrev answered_task : TaskChannel
answered_task = record task {
  state = TaskState.bridged;
  state_c = TaskState.bridged ∷ [];
  bridged_at = pos 2;
}

answered_run :
    run (answers (pos 2) ∷ answers (pos 3) ∷ []) (new_task_channel (pos 1) "42")
    ≡ ends answered_task
unfolding run new_task_channel
answered_run = refl

run-unserved_example : WaitsClosed (pos 5) (act (closes (pos 5)) answered_task)
run-unserved_example =
    run-unserved (pos 1) (pos 5) "42" (answers (pos 2) ∷ answers (pos 3) ∷ []) answered_task
      (refl, (refl, tt)) (tt, (tt, tt)) answered_run refl refl

-- A second receive of the answer waits.
second_receive :
    run (answers (pos 2) ∷ receives ∷ receives ∷ []) task
    ≡ receive_waits (record answered_task { state_c = [] })
unfolding run new_task_channel
second_receive = refl

-- ===== src/Queue/Task.antt =====
-- queue/task_channel.go: the channel of a task that an agent works on, and the loop of
-- queue/task_agent.go that receives from it. The clock is an argument of each call.
pub mod Laws
mod Tests
use Prim.Native.String.{◌++◌ as text_append}
use call_center.Prelude.{
  ℕ, String, Option, none, some, List, [], ◌∷◌, ◌++◌, Bool, true, false, ltb, length, if◌then◌else◌,
}
use call_center.Prelude.Int.{ℤ, pos, ltb_ℤ, ◌==ℤ◌}
use call_center.Model.{AppError, new_app_error}

pub data TaskState : Type 0 where
  idle bridged closed : TaskState

abbrev pub state_capacity : ℕ
state_capacity = 1

-- `TaskChannel`; `state_c` holds what was sent and not yet received.
pub record TaskChannel : Type 0 where
  pub id : String
  pub state : TaskState
  pub state_c : List TaskState
  pub created_at : ℤ
  pub bridged_at : ℤ
  pub closed_at : ℤ
  pub reporting_at : ℤ

-- How a call ends: it returns, or it waits for a receiver with the lock held.
pub data Step : Type 0 where
  returns : Option AppError → TaskChannel → Step
  blocks : TaskChannel → Step

unfoldable pub new_task_channel : ℤ → String → TaskChannel
new_task_channel now id = record {
  id = id;
  state = TaskState.idle;
  state_c = [];
  created_at = now;
  bridged_at = pos 0;
  closed_at = pos 0;
  reporting_at = pos 0;
}

unfoldable pub set_state : TaskState → TaskChannel → Step
set_state s t =
    let set = record t { state = s } in
    if ltb (length t.state_c) state_capacity
    then returns none (record set { state_c = t.state_c ++ (s ∷ []) })
    else blocks set

unfoldable pub answered : TaskChannel → Bool
answered t = ltb_ℤ (pos 0) t.bridged_at

abbrev pub already_bridged : String → AppError
already_bridged id =
    new_app_error "TaskChannel" "queue.task.valid.bridged_at"
      (text_append "task " (text_append id " is bridged")) (pos 400)

abbrev pub already_closed : String → AppError
already_closed id =
    new_app_error "TaskChannel" "queue.task.valid.closed_at"
      (text_append "task " (text_append id " is closed")) (pos 400)

unfoldable pub set_answered : ℤ → TaskChannel → Step
unfolding set_state new_app_error
set_answered now t =
    if t.bridged_at ==ℤ pos 0
    then set_state TaskState.bridged (record t { bridged_at = now })
    else returns (some (already_bridged t.id)) t

unfoldable pub set_closed : ℤ → TaskChannel → Step
unfolding set_state new_app_error
set_closed now t =
    if t.closed_at ==ℤ pos 0
    then set_state TaskState.closed (record t { closed_at = now })
    else returns (some (already_closed t.id)) t

-- The clock is read once for the report and once for the end.
unfoldable pub reporting : ℤ → ℤ → TaskChannel → Step
unfolding set_closed
reporting now later t =
    let reported = record t { reporting_at = now } in
    if t.closed_at ==ℤ pos 0 then set_closed later reported else returns none reported

unfoldable pub is_declined : TaskChannel → Bool
is_declined t = t.bridged_at ==ℤ pos 0

-- What the loop of the queue gets next, and what is then left to receive.
unfoldable pub receive : TaskChannel → Option (TaskState × TaskChannel)
receive t = elim t.state_c [ [] ↦ none | s ∷ rest ↦ some (s, record t { state_c = rest }) ]

-- The calls that others make on the channel, and the receives of the loop.
pub data Action : Type 0 where
  answers : ℤ → Action
  closes : ℤ → Action
  reports : ℤ → ℤ → Action
  receives : Action

-- How far a sequence of calls and receives comes: to its end, or to a call that waits for a receiver,
-- or to a receive that waits for a state.
pub data Outcome : Type 0 where
  ends call_waits receive_waits : TaskChannel → Outcome

abbrev pub of_step : Step → Outcome
of_step (returns e u) = ends u
of_step (blocks u) = call_waits u

unfoldable pub act : Action → TaskChannel → Outcome
unfolding set_answered set_closed reporting receive
act (answers now) t = of_step (set_answered now t)
act (closes now) t = of_step (set_closed now t)
act (reports now later) t = of_step (reporting now later t)
act receives t = elim (receive t) [ none ↦ receive_waits t | some (s, u) ↦ ends u ]

-- What follows an action that came to its end.
abbrev pub after : Outcome → (TaskChannel → Outcome) → Outcome
after (ends u) f = f u
after (call_waits u) f = call_waits u
after (receive_waits u) f = receive_waits u

-- What a sequence of actions leaves; where one waits, nothing after it runs. The order is the one in which
-- the actions come to their end: a receive that waits until a later call stands after that call.
unfoldable pub run : List Action → TaskChannel → Outcome
unfolding act
run [] t = ends t
run (a ∷ rest) t = after (act a t) (run rest)

-- ===== src/Queue/Team.antt =====
-- queue/team.go, and `Offering` of queue/queue.go: what a team does with an attempt and its agent. The
-- clock stands still during a method; none is a panic on an attempt without a queue. Errors of the
-- broker are only logged, so the broker is a list of events.
pub mod Handlers
pub mod Wrap
pub mod Missed
pub mod Reporting
mod Tests
use call_center.Prelude.{
  ℕ, ◌*◌, ◌%◌, ◌^◌, String, Option, none, some, Bool, true, false, not, ◌&&◌, ◌||◌, leb,
  if◌then◌else◌, ◌==s◌,
}
use call_center.Prelude.Int.{ℤ, pos, ◌+ℤ◌, int64}
use call_center.Model.Maps.{StringMap}
use call_center.Model.Agent.{Agent, MissedAgent}
use call_center.Model.Member.{SchemaResult}
use call_center.AgentManager.Agent.{user_id}
use call_center.Queue.State.{
  Attempt, BaseQueue, Channel, ChannelEvent, Outcome, Effect, World, emit, put,
}
use call_center.Queue.Attempt.{set_result, result, set_member_stop_cause, member_state_bridged}
use call_center.Queue.Attempt.Schema.{
  FlowResult, after_distribute_schema, set_state, attempt_result_success,
}

-- model/team.go, `Team`: the three settings are of 16 bits.
pub record Team : Type 0 where
  pub id : ℤ
  pub max_no_answer : ℕ
  pub wrap_up_time : ℕ
  pub no_answer_delay_time : ℕ

-- What the services answer to a request, none for an error.
pub record Services : Type 0 where
  pub flow : Effect → Option FlowResult
  pub leaves : Effect → Option (ℤ × Option String)  -- the time, and the cause that stops the member
  pub missed : Effect → Option MissedAgent
  pub stamped : Effect → Option ℤ
  pub accepted : Effect → Bool

abbrev pub attempt_result_transfer : String
attempt_result_transfer = "transfer"

abbrev pub attempt_result_endless : String
attempt_result_endless = "endless"

abbrev pub attempt_result_cancel : String
attempt_result_cancel = "cancel"

abbrev pub attempt_result_post_processing : String
attempt_result_post_processing = "processing"

abbrev pub member_state_active : String
member_state_active = "active"

abbrev pub member_state_offering : String
member_state_offering = "offering"

abbrev pub member_state_processing : String
member_state_processing = "processing"

abbrev pub member_state_cancel : String
member_state_cancel = "cancel"

abbrev pub hook_missed : String
hook_missed = "missed"

-- An event on the channel of the attempt, to the agent's user.
unfoldable pub to_agent : Agent → ChannelEvent → World → World
unfolding user_id
to_agent agent e w =
    emit
      (Effect.publish w.attempt.channel w.attempt.domain_id w.attempt.member.queue_id
        (user_id agent) e)
      w

abbrev pub then_world : Option World → (World → Option World) → Option World
then_world none f = none
then_world (some w) f = f w

-- `StartProcessingForm` of the attempt's queue: the form is started once, on a goroutine of its own.
unfoldable pub start_form : World → World
start_form w = elim w.attempt.queue [
  | none ↦ w
  | some q ↦ elim q.form_schema_id [
    | none ↦ w
    | some schema ↦
        if q.processing && not w.attempt.processing_form_started
        then emit (Effect.start_processing_form schema) w
        else w
  ]
]

unfoldable pub answered : ℤ → Agent → World → Option World
unfolding start_form set_state to_agent
answered now agent w =
    then_world (set_state now member_state_active (start_form w))
      (λ u. some (to_agent agent (ChannelEvent.answered_event now) u))

unfoldable pub bridged : Services → ℤ → Agent → World → Option World
unfolding start_form set_state to_agent
bridged s now agent w =
    let formed = if w.attempt.process_transfer then w else start_form w in
    let write = Effect.set_attempt_bridged formed.attempt.member.id in
    let told = emit write formed in
    elim (s.stamped write) [
      | none ↦ some told
      | some at ↦
          then_world (set_state now member_state_bridged told)
            (λ u. some (to_agent agent (ChannelEvent.bridged_event at) u))
    ]

unfoldable pub offering : Services → ℤ → Agent → Channel → Option Channel → World → Option World
unfolding set_state to_agent
offering s now agent own member w =
    let member_id = elim member as (λ x. Option String) [ none ↦ none | some c ↦ some c.id ] in
    let write =
      Effect.set_attempt_offering w.attempt.member.id agent.id own.id member_id
        w.attempt.communication.destination w.attempt.communication.display in
    let told = emit write w in
    elim (s.stamped write) [
      | none ↦ some told
      | some at ↦
          then_world (set_state now member_state_offering told)
            (λ u. some (to_agent agent (ChannelEvent.offering_event at (some own.id) member_id) u))
    ]

-- `int64(tm.WrapUpTime()*1000)`: the product is of 16 bits.
abbrev pub wrap_millis : Team → ℕ
wrap_millis t = (t.wrap_up_time * 1000) % 2 ^ 16

-- `int64(tm.NoAnswerDelayTime())*1000`
abbrev pub delay_millis : Team → ℕ
delay_millis t = t.no_answer_delay_time * 1000

unfoldable pub wrap_time : Team → ℤ → ChannelEvent
unfolding int64 ◌+ℤ◌
wrap_time t at = ChannelEvent.wrap_time_event at (int64 (at +ℤ pos (wrap_millis t)))

abbrev pub stop_member : Option String → Attempt → Attempt
stop_member none a = a
stop_member (some cause) a = set_member_stop_cause (some cause) a

-- The result that is written: the queue's, then the schema's.
abbrev pub queue_result : BaseQueue → String → String
queue_result q result =
    if q.endless && not (result ==s attempt_result_transfer) then attempt_result_endless else result

abbrev pub schema_status : Option SchemaResult → String → String
schema_status none result = result
schema_status (some res) result = if res.status ==s "" then result else res.status

abbrev pub schema_variables : Option SchemaResult → Option StringMap
schema_variables none = none
schema_variables (some res) = res.variables

abbrev pub hold_sec : Team → Agent → ℕ
hold_sec t agent = if agent.on_demand then 0 else t.wrap_up_time

abbrev pub outcome : ℕ → String → Option StringMap → Attempt → Outcome
outcome sec result vars a = record {
  result = result;
  agent_hold_sec = sec;
  variables = vars;
  max_attempts = a.max_attempts;
  wait_between = a.wait_between;
  per_numbers = a.per_numbers;
  description = a.description;
  sticky_agent_id = a.sticky_agent_id;
}

-- What the store's answer to the result changes.
unfoldable pub after_write : Team → Agent → String → Option (ℤ × Option String) → World → World
unfolding set_result set_member_stop_cause wrap_time to_agent
after_write t agent result none w = w
after_write t agent result (some (at, cause)) w =
    to_agent agent (wrap_time t at) (put (set_result result (stop_member cause w.attempt)) w)

unfoldable pub set_wrap : Services → ℤ → Team → BaseQueue → Agent → String → World → World
unfolding after_distribute_schema after_write
set_wrap s now t q agent result w =
    let (u, res) = after_distribute_schema s.flow now w in
    let final = schema_status res (queue_result q result) in
    let write =
      Effect.set_attempt_result u.attempt.member.id
        (outcome (hold_sec t agent) final (schema_variables res) u.attempt) in
    emit Effect.leaving_member (after_write t agent final (s.leaves write) (emit write u))

-- ===== src/Queue/Team/Handlers.antt =====
-- queue/team.go and `Cancel` of queue/queue.go: the ends of an attempt, with what they tell the store,
-- the agent and the flows.
use call_center.Prelude.{
  ℕ, ◌*◌, String, Option, none, some, Bool, true, false, not, ◌&&◌, ◌||◌, leb, if◌then◌else◌, ◌==s◌,
}
use call_center.Prelude.Int.{ℤ, pos, ◌+ℤ◌, int64}
use call_center.Model.Agent.{Agent, MissedAgent}
use call_center.AgentManager.Agent.{user_id}
use call_center.Queue.State.{Attempt, BaseQueue, ChannelEvent, Effect, World, emit, put}
use call_center.Queue.Attempt.{set_result, result, set_member_stop_cause}
use call_center.Queue.Attempt.Schema.{after_distribute_schema, set_state, attempt_result_success}
use call_center.Queue.Team.{
  Team, Services, to_agent, then_world, stop_member, delay_millis, wrap_time, set_wrap, hook_missed,
  member_state_cancel, member_state_processing, attempt_result_cancel,
  attempt_result_post_processing,
}

-- `*missed.NoAnswers >= tm.MaxNoAnswer()`, if there is a count.
unfoldable pub over_limit : Team → MissedAgent → Bool
over_limit t m = elim m.no_answers [ none ↦ false | some n ↦ leb t.max_no_answer n ]

unfoldable pub set_agent_max_no_answer : Agent → World → World
set_agent_max_no_answer agent w = emit (Effect.set_agent_break_out agent.id) w

abbrev pub missed_until : Team → MissedAgent → ℤ
missed_until t m = int64 (m.timestamp +ℤ pos (delay_millis t))

unfoldable pub missed_agent : ℤ → Team → MissedAgent → Agent → Option String → World → Option World
unfolding over_limit set_agent_max_no_answer set_state to_agent int64 ◌+ℤ◌
missed_agent now t m agent err w =
    let broken = if over_limit t m then set_agent_max_no_answer agent w else w in
    then_world (set_state now hook_missed broken)
      (λ u. some (to_agent agent (ChannelEvent.missed_event m.timestamp (missed_until t m) err) u))

unfoldable pub missed : Services → ℤ → Team → Agent → World → Option World
unfolding after_distribute_schema missed_agent set_result set_member_stop_cause
missed s now t agent w =
    let u = (after_distribute_schema s.flow now w).0 in
    let write =
      Effect.set_attempt_missed u.attempt.member.id t.no_answer_delay_time u.attempt.max_attempts
        u.attempt.wait_between u.attempt.per_numbers in
    let told = emit write u in
    elim (s.missed write) [
      | none ↦ some told
      | some m ↦
          missed_agent now t m agent none (
            put (set_result member_state_cancel (stop_member m.member_stop_cause told.attempt))
              told)
    ]

unfoldable pub cancel_attempt_and_release_agent : Services → ℤ → Agent → World → World
unfolding set_result user_id
cancel_attempt_and_release_agent s now agent w =
    let write = Effect.cancel_attempt_and_release_agent w.attempt.member.id in
    let told = emit write w in
    if s.accepted write
    then emit
        (Effect.publish w.attempt.channel agent.domain_id w.attempt.member.queue_id (user_id agent)
          (ChannelEvent.waiting_event now))
        (put (set_result member_state_cancel told.attempt) told)
    else told

unfoldable pub cancel_agent_attempt : Services → ℤ → Team → Agent → World → Option World
unfolding set_result missed_agent
cancel_agent_attempt s now t agent w =
    let canceled = put (set_result member_state_cancel w.attempt) w in
    let write = Effect.cancel_agent_attempt w.attempt.member.id t.no_answer_delay_time in
    let told = emit write canceled in
    elim (s.missed write) [ none ↦ some told | some m ↦ missed_agent now t m agent none told ]

abbrev pub without_agent : World → World
without_agent w = put (record w.attempt { agent = none; agent_channel = none }) w

-- `MissedAgentAndWaitingAttemptWithError`; without an error it is `MissedAgentAndWaitingAttempt`.
unfoldable pub missed_agent_and_waiting_attempt_with_error :
    Services → ℤ → Team → Agent → Option String → World → Option World
unfolding missed_agent
missed_agent_and_waiting_attempt_with_error s now t agent err w =
    let write = Effect.set_attempt_missed_agent w.attempt.member.id t.no_answer_delay_time in
    let told = emit write w in
    elim (s.missed write) [
      | none ↦ some told
      | some m ↦ then_world (missed_agent now t m agent err told) (λ u. some (without_agent u))
    ]

unfoldable pub missed_agent_and_waiting_attempt : Services → ℤ → Team → Agent → World → Option World
unfolding missed_agent_and_waiting_attempt_with_error
missed_agent_and_waiting_attempt s now t agent w =
    missed_agent_and_waiting_attempt_with_error s now t agent none w

unfoldable pub waiting_agent_and_waiting_attempt : Services → ℤ → Team → Agent → World → World
unfolding user_id
waiting_agent_and_waiting_attempt s now t agent w =
    let write = Effect.set_attempt_waiting_agent w.attempt.member.id t.no_answer_delay_time in
    let told = emit write w in
    if s.accepted write
    then without_agent (
        emit
          (Effect.publish w.attempt.channel agent.domain_id w.attempt.member.queue_id
            (user_id agent) (ChannelEvent.waiting_event now))
          told)
    else told

unfoldable pub transfer : ℤ → Team → Agent → World → World
unfolding wrap_time to_agent
transfer now t agent w = to_agent agent (wrap_time t now) w

-- `Cancel` of queue/queue.go
unfoldable pub cancel : Services → ℤ → Agent → World → World
unfolding after_distribute_schema set_member_stop_cause to_agent
cancel s now agent w =
    let u = (after_distribute_schema s.flow now w).0 in
    let a = u.attempt in
    let write =
      Effect.set_attempt_abandoned a.member.id a.max_attempts a.wait_between a.per_numbers
        a.exclude_curr_number a.redial a.description a.sticky_agent_id in
    let told = emit write u in
    elim (s.leaves write) [
      | none ↦ told
      | some (at, cause) ↦
          to_agent agent (ChannelEvent.waiting_event at) (put (stop_member cause told.attempt) told)
    ]

abbrev pub result_or : String → Attempt → String
result_or s a = if result a ==s "" then s else result a

-- The result that an attempt without processing is wrapped with.
abbrev pub wrap_result : Attempt → String
wrap_result a =
    if a.process_transfer then attempt_result_cancel else result_or attempt_result_success a

abbrev prolongation : BaseQueue → Option (ℕ × ℕ)
prolongation q =
    if q.is_prolongation_enabled then some (q.prolongation_steps, q.prolongation_sec) else none

abbrev pub processing_event : BaseQueue → ℤ → ChannelEvent
processing_event q at =
    ChannelEvent.processing_event at (int64 (at +ℤ pos (q.processing_sec * 1000))) q.processing_sec
      q.processing_renewal_sec (prolongation q) q.processing_autosave

-- The end with a form: the agent has `processing_sec` seconds to report.
unfoldable pub start_processing : Services → ℤ → BaseQueue → Agent → World → Option World
unfolding set_result result set_state to_agent int64 ◌+ℤ◌
start_processing s now q agent w =
    let set = put (set_result (result_or attempt_result_post_processing w.attempt) w.attempt) w in
    let write = Effect.set_attempt_reporting w.attempt.member.id q.processing_sec in
    let told = emit write set in
    elim (s.stamped write) [
      | none ↦ some told
      | some at ↦
          then_world (set_state now member_state_processing told)
            (λ u. some (to_agent agent (processing_event q at) u))
    ]

-- `Reporting`. `ProcessingTransfer` of a queue is false, so the argument for a transfer is dropped.
-- `waits` is the manager's `waitChannelClose`.
unfoldable pub end_reporting : Services → ℤ → Team → BaseQueue → Agent → Bool → World → Option World
unfolding result set_result set_wrap start_processing
end_reporting s now t q agent reported w =
    let by_form = reported && (elim w.attempt.draft [ none ↦ true | some d ↦ false ]) in
    if by_form
    then some (put (set_result (result_or attempt_result_success w.attempt) w.attempt) w)
    else if not q.processing || w.attempt.process_transfer
    then some (set_wrap s now t q agent (wrap_result w.attempt) w)
    else start_processing s now q agent w

unfoldable pub reporting :
    Services → Bool → ℤ → Team → BaseQueue → Agent → Bool → World → Option World
unfolding end_reporting
reporting s waits now t q agent reported w = elim w.attempt.result [
  | none ↦ end_reporting s now t q agent reported w
  | some cb ↦
      if waits
      then some (emit (Effect.reporting_attempt w.attempt.member.id cb) w)
      else end_reporting s now t q agent reported w
]

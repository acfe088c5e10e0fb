-- ===== src/Queue/Team/Tests.antt =====
-- The theorems on teams, at the attempt of a queue and an agent of its team.
use call_center.Prelude.{
  ℕ, ◌+◌, ◌∷◌, ◌*◌, ◌≤◌, none, some, [], ◌≡◌, ◌≢◌, ◌↔◌, refl, true, false, arith,
}
use call_center.Prelude.Int.{pos}
use call_center.Model.Agent.{Agent, MissedAgent, create_agent_status}
use call_center.Model.Member.{MemberAttempt, MemberCommunication}
use call_center.Queue.State.{BaseQueue, Effect, World, emit}
use call_center.Queue.Attempt.{new_attempt}
use call_center.Queue.Attempt.Schema.{after_distribute_schema}
use call_center.Queue.Team.{Team, Services, set_wrap, wrap_millis, hold_sec}
use call_center.Queue.Team.Handlers.{
  missed_agent, missed_agent_and_waiting_attempt_with_error, reporting,
}
use call_center.Queue.Team.Wrap.{
  Ended, final_write, final_result, told_until, set_wrap_lem, set_wrap-deadline,
}
use call_center.Queue.Team.Missed.{
  Returns, MissedBy, Freed, missed_write, missed_agent-MissedBy,
  missed_agent_and_waiting_attempt_with_error_lem,
}
use call_center.Queue.Team.Reporting.{Reported, reporting_lem}

abbrev destination : MemberCommunication
destination = record {
  destination = "100";
  type = record { id = pos 0; name = ""; channel = none };
  priority = pos 0;
  display = none;
  description = "";
  attempts = pos 0;
  dtmf = none;
}

abbrev member : MemberAttempt
member = record {
  id = pos 42;
  queue_id = pos 7;
  queue_updated_at = pos 0;
  seq = none;
  communication_idx = none;
  member_id = none;
  created_at = pos 1000;
  resource_id = none;
  resource_updated_at = none;
  gateway_updated_at = none;
  result = none;
  destination = [];
  list_communication_id = none;
  agent_id = none;
  agent_updated_at = none;
  team_updated_at = none;
  variables = none;
  name = "Bob";
  member_call_id = none;
  timezone = none;
  bucket_id = none;
  block_all_member_numbers_from_list = false;
}

abbrev queue : BaseQueue
queue = record {
  channel = "call";
  id = pos 7;
  updated_at = pos 0;
  domain_id = pos 1;
  name = "sales";
  variables = [];
  after_schema_id = none;
  form_schema_id = none;
  processing = true;
  processing_sec = 30;
  processing_renewal_sec = 0;
  endless = true;
  hooks = [];
  prolongation_steps = 0;
  is_prolongation_enabled = false;
  prolongation_sec = 0;
  processing_autosave = false;
  type_id = 1;
  is_prolongation_timeout_retry = false;
  ringtone_uri = none;
  team_id = none;
}

calling : World
unfolding new_attempt
calling = record {
  attempt = record (new_attempt destination member) { queue = some queue; channel = "call" };
  effects = [];
}

abbrev agent : Agent
agent = record {
  agent_status = create_agent_status "online" [];
  id = pos 5;
  domain_id = pos 1;
  user_id = some (pos 10);
  name = "Ann";
  updated_at = pos 0;
  destination = none;
  extension = some "101";
  team_id = pos 2;
  team_updated_at = pos 0;
  on_demand = false;
  variables = [];
  chat_name = "";
}

abbrev team : Team
team = record { id = pos 2; max_no_answer = 3; wrap_up_time = 70; no_answer_delay_time = 20 }

abbrev third_miss : MissedAgent
third_miss = record { timestamp = pos 9000; no_answers = some 3; member_stop_cause = none }

abbrev services : Services
services = record {
  flow = λ e. none;
  leaves = λ e. some (pos 9000, none);
  missed = λ e. some third_miss;
  stamped = λ e. some (pos 9000);
  accepted = λ e. true;
}

set_wrap_example :
    Ended services team agent
      (final_result services (pos 8000) queue "success" calling)
      (final_write services (pos 8000) team queue agent "success" calling)
      calling
      (after_distribute_schema services.flow (pos 8000) calling).0
      (set_wrap services (pos 8000) team queue agent "success" calling)
set_wrap_example = set_wrap_lem services (pos 8000) team queue agent "success" calling

set_wrap-deadline_example :
    let flowed = (after_distribute_schema services.flow (pos 8000) calling).0 in
    (deadline : ℕ) × ((set_wrap services (pos 8000) team queue agent "success" calling).effects
      ≡ Effect.leaving_member
        ∷ told_until agent flowed.attempt 9000 deadline
        ∷ final_write services (pos 8000) team queue agent "success" calling
        ∷ flowed.effects)
    × ((deadline ≡ 9000 + hold_sec team agent * 1000) ↔ (70 ≤ 65))
set_wrap-deadline_example =
    set_wrap-deadline services (pos 8000) team queue agent "success" calling 9000 none (omega arith)
      refl (omega arith) refl

-- After 70 seconds of wrap-up time the agent's client waits 4464 milliseconds.
wrap_millis_70 : wrap_millis team ≡ 4464
wrap_millis_70 = refl

calling-queue : calling.attempt.queue ≢ none
unfolding calling
calling-queue = ground arith

missed_agent-MissedBy_example :
    Returns
      (MissedBy team third_miss agent none calling)
      (missed_agent (pos 8000) team third_miss agent none calling)
missed_agent-MissedBy_example =
    missed_agent-MissedBy (pos 8000) team third_miss agent none calling calling-queue

missed_agent_and_waiting_attempt_example :
    (services.missed (missed_write team calling) ≡ none
      → missed_agent_and_waiting_attempt_with_error services (pos 8000) team agent none calling
        ≡ some (emit (missed_write team calling) calling))
    × ((m : MissedAgent)
        → services.missed (missed_write team calling) ≡ some m
        → Returns (Freed team m agent calling) (
            missed_agent_and_waiting_attempt_with_error services
              (pos 8000)
              team
              agent
              none
              calling))
missed_agent_and_waiting_attempt_example =
    missed_agent_and_waiting_attempt_with_error_lem services (pos 8000) team agent none calling
      calling-queue

reporting_example :
    Returns
      (Reported services queue false calling)
      (reporting services false (pos 8000) team queue agent false calling)
unfolding calling
reporting_example =
    reporting_lem services false (pos 8000) team queue agent false calling calling-queue refl refl
      refl

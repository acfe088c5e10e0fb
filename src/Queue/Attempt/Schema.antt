-- ===== src/Queue/Attempt/Schema.antt =====
-- queue/attempt.go, `SetState`, `AfterDistributeSchema` and `ApplyCallbackRules`; queue/hook.go; and
-- `AfterDistributeSchema` of queue/schema.go. The flow manager is a service: `flow` is what
-- `ResultAttempt` answers for the request, none if it fails.
use call_center.Prelude.{
  ℕ, String, Option, none, some, [], ◌∷◌, Bool, false, ◌&&◌, ◌||◌, ltb, if◌then◌else◌, ◌==s◌,
  string_key,
}
use call_center.Prelude.Int.{ℤ, pos, ◌==ℤ◌}
use call_center.Prelude.StringMap.{lookup, insert}
use call_center.Model.Maps.{StringMap, union_string_maps}
use call_center.Model.Member.{AttemptCallback, SchemaResult, SchemaResultType}
use call_center.Queue.State.{Attempt, BaseQueue, Channel, Effect, World, emit, put}
use call_center.Queue.Attempt.{result, set_callback, member_state_bridged}
use call_center.Queue.Attempt.Variables.{add_variables, export_schema_variables, queue_channel_call}

-- `Hook` starts the flow that the queue has for the event; an error of the flow is only logged.
unfoldable pub hook : ℤ → String → BaseQueue → World → World
unfolding lookup union_string_maps export_schema_variables
hook now name q w = elim (lookup name q.hooks) [
  | none ↦ w
  | some schema ↦
      emit
        (Effect.start_flow schema q.domain_id (
          union_string_maps (
            export_schema_variables now w.attempt
            ∷ q.variables
            ∷ (("state", w.attempt.state) ∷ ("channel", q.channel) ∷ [])
            ∷ [])))
        w
]

-- The state, and the time of the first bridge.
unfoldable pub stamp_state : ℤ → String → Attempt → Attempt
stamp_state now state a =
    if (state ==s member_state_bridged) && (a.bridged_at ==ℤ pos 0)
    then record a { state = state; bridged_at = now }
    else record a { state = state }

-- An attempt without a queue panics, after the state is set.
unfoldable pub set_state : ℤ → String → World → Option World
unfolding hook stamp_state
set_state now state w =
    let set = put (stamp_state now state w.attempt) w in
    elim w.attempt.queue [ none ↦ none | some q ↦ some (hook now state q set) ]

-- What the flow answers: its three results, or another one; the variables are those of the answer.
pub data FlowResult : Type 0 where
  success : Option StringMap → FlowResult
  abandoned : String → ℕ → ℕ → Bool → Bool → ℤ → Bool → String → Option StringMap → FlowResult
  retry : ℤ → Bool → ℤ → FlowResult
  other : FlowResult

abbrev pub attempt_result_success : String
attempt_result_success = "success"

abbrev no_result : SchemaResult
no_result = record {
  type = SchemaResultType.success;
  status = "";
  max_attempts = 0;
  wait_between_retries = 0;
  exclude_current_number = false;
  redial = false;
  variables = none;
  agent_id = pos 0;
  display = false;
  description = "";
  retry_sleep = pos 0;
  retry_next_resource = false;
  retry_resource_id = pos 0;
}

unfoldable pub schema_result : FlowResult → Option SchemaResult
schema_result (success vars) =
    some (record no_result { status = attempt_result_success; variables = vars })
schema_result (abandoned status max wait exclude redial agent display description vars) =
    some (record {
      type = SchemaResultType.abandoned;
      status = status;
      max_attempts = max;
      wait_between_retries = wait;
      exclude_current_number = exclude;
      redial = redial;
      variables = vars;
      agent_id = agent;
      display = display;
      description = description;
      retry_sleep = pos 0;
      retry_next_resource = false;
      retry_resource_id = pos 0;
    })
schema_result (retry sleep next resource) = some (record no_result {
  type = SchemaResultType.retry;
  retry_sleep = sleep;
  retry_next_resource = next;
  retry_resource_id = resource;
})
schema_result other = none

abbrev pub both_answered : Option Channel → Channel → Bool
both_answered none m = false
both_answered (some g) m = g.answered && m.answered

-- The result that the schema is told where the attempt has none yet.
unfoldable pub channel_result : Option Channel → Channel → String
channel_result agent member =
    let seen = if both_answered agent member then "success" else "abandoned" in
    if member.answered then seen else "failed"

unfoldable pub channel_variables : Attempt → StringMap
unfolding channel_result insert result
channel_variables a = elim a.member_channel [
  | none ↦ []
  | some m ↦
      if result a ==s ""
      then insert "cc_result" (channel_result a.agent_channel m) m.stats
      else m.stats
]

abbrev pub scope : Attempt → Option (String × String)
scope a = elim a.member_channel [
  | none ↦ none
  | some m ↦ if a.channel ==s queue_channel_call then some (a.channel, m.id) else none
]

-- The request to the flow, if the queue has a schema for it.
unfoldable pub after_request : ℤ → BaseQueue → Attempt → Option Effect
unfolding union_string_maps export_schema_variables channel_variables
after_request now q a = elim q.after_schema_id [
  | none ↦ none
  | some schema ↦ some (
      Effect.result_schema schema (scope a) (
        union_string_maps (q.variables ∷ export_schema_variables now a ∷ channel_variables a ∷ [])))
]

-- The settings of the attempt that the schema's result changes, each where the result has it.
unfoldable pub set_retries : SchemaResult → Attempt → Attempt
set_retries res a =
    let limited =
      if ltb 0 res.max_attempts then record a { max_attempts = res.max_attempts } else a in
    if ltb 0 res.wait_between_retries
    then record limited { wait_between = res.wait_between_retries }
    else limited

unfoldable pub set_numbers : SchemaResult → Attempt → Attempt
set_numbers res a = record a {
  exclude_curr_number = a.exclude_curr_number || res.exclude_current_number;
  redial = a.redial || res.redial;
}

unfoldable pub set_agent_settings : SchemaResult → Attempt → Attempt
set_agent_settings res a = record a {
  description = if res.description ==s "" then a.description else some res.description;
  sticky_agent_id = if res.agent_id ==ℤ pos 0 then a.sticky_agent_id else some res.agent_id;
}

unfoldable pub set_variables : SchemaResult → Attempt → Attempt
unfolding add_variables
set_variables res a = elim res.variables [ none ↦ a | some vars ↦ add_variables vars a ]

unfoldable pub apply_settings : SchemaResult → Attempt → Attempt
unfolding set_retries set_numbers set_agent_settings set_variables
apply_settings res a =
    set_variables res (set_agent_settings res (set_numbers res (set_retries res a)))

unfoldable pub apply_answer : Option SchemaResult → World → World × Option SchemaResult
unfolding apply_settings
apply_answer none w = (w, none)
apply_answer (some res) w = (put (apply_settings res w.attempt) w, some res)

unfoldable pub ask_flow :
    (Effect → Option FlowResult) → Effect → World → World × Option SchemaResult
unfolding apply_answer schema_result
ask_flow flow req w = elim (flow req) [
  | none ↦ (emit req w, none)
  | some answer ↦ apply_answer (schema_result answer) (emit req w)
]

-- `AfterDistributeSchema`: the schema's result, if the attempt's queue has a schema that answers.
unfoldable pub after_distribute_schema :
    (Effect → Option FlowResult) → ℤ → World → World × Option SchemaResult
unfolding after_request ask_flow
after_distribute_schema flow now w = elim w.attempt.queue [
  | none ↦ (w, none)
  | some q ↦ elim (after_request now q w.attempt) [
    | none ↦ (w, none)
    | some req ↦ ask_flow flow req w
  ]
]

-- What a schema's result changes in the callback, which is the one that the attempt holds.
unfoldable pub merge_callback : SchemaResult → AttemptCallback → AttemptCallback
unfolding union_string_maps
merge_callback r cb =
    let stated = record cb { status = if r.status ==s "" then cb.status else r.status } in
    elim r.variables [
      | none ↦ stated
      | some vars ↦ record stated { variables = union_string_maps (cb.variables ∷ vars ∷ []) }
    ]

unfoldable pub apply_callback_rules :
    (Effect → Option FlowResult) → ℤ → AttemptCallback → World → World × AttemptCallback
unfolding set_callback after_distribute_schema merge_callback
apply_callback_rules flow now cb w =
    let (u, r) = after_distribute_schema flow now (put (set_callback cb w.attempt) w) in
    elim r [
      | none ↦ (u, cb)
      | some res ↦
          let merged = merge_callback res cb in
          (put (record u.attempt { result = some merged }) u, merged)
    ]

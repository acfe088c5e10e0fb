-- ===== src/Queue/Attempt/Callback.antt =====
-- `ApplyCallbackRules` of queue/attempt.go: the callback of an agent, and the flow's changes to it.
use call_center.Prelude.{
  Option, none, some, Option-cases, inl, inr, true, false, ◌≡◌, ◌∙◌, arith, ◌==s◌, ==s_iff,
}
use call_center.Prelude.Int.{ℤ}
use call_center.Model.Member.{AttemptCallback, SchemaResult}
use call_center.Queue.State.{Attempt, Effect, World, put, emit}
use call_center.Queue.Attempt.{result, set_callback, set_result}
use call_center.Queue.Attempt.Variables.{add_variables}
use call_center.Queue.Attempt.Schema.{
  FlowResult, after_request, after_distribute_schema, apply_callback_rules, merge_callback,
  ask_flow, apply_answer, apply_settings, set_retries, set_numbers, set_agent_settings,
  set_variables, schema_result,
}

-- What the flow's settings leave alone.
pub record Same (a b : Attempt) : Type 0 where
  pub same_callback : b.result ≡ a.result
  pub same_result : b.member.result ≡ a.member.result
  pub same_id : b.member.id ≡ a.member.id
  pub same_state : b.state ≡ a.state
  pub same_cancel : b.canceled ≡ a.canceled
  pub same_queue : b.queue ≡ a.queue
  pub same_channel : b.channel ≡ a.channel

Same-trans : (a b c : Attempt) → Same a b → Same b c → Same a c
Same-trans a b c k l = record {
  same_callback = l.same_callback ∙ k.same_callback;
  same_result = l.same_result ∙ k.same_result;
  same_id = l.same_id ∙ k.same_id;
  same_state = l.same_state ∙ k.same_state;
  same_cancel = l.same_cancel ∙ k.same_cancel;
  same_queue = l.same_queue ∙ k.same_queue;
  same_channel = l.same_channel ∙ k.same_channel;
}

set_retries-Same : (res : SchemaResult) (a : Attempt) → Same a (set_retries res a)
unfolding set_retries
set_retries-Same res a = ground arith

set_numbers-Same : (res : SchemaResult) (a : Attempt) → Same a (set_numbers res a)
unfolding set_numbers
set_numbers-Same res a = ground arith

set_agent_settings-Same : (res : SchemaResult) (a : Attempt) → Same a (set_agent_settings res a)
unfolding set_agent_settings
set_agent_settings-Same res a = ground arith

set_variables-Same : (res : SchemaResult) (a : Attempt) → Same a (set_variables res a)
unfolding set_variables add_variables
set_variables-Same res a = ground arith

apply_settings-Same : (res : SchemaResult) (a : Attempt) → Same a (apply_settings res a)
unfolding apply_settings
apply_settings-Same res a =
    let b = set_retries res a in
    let c = set_numbers res b in
    let d = set_agent_settings res c in
    Same-trans a b _ (set_retries-Same res a) (
      Same-trans b c _ (set_numbers-Same res b)
        (Same-trans c d _ (set_agent_settings-Same res c) (set_variables-Same res d)))

apply_answer-Same :
    (o : Option SchemaResult) (w : World) → Same w.attempt (apply_answer o w).0.attempt
unfolding apply_answer
apply_answer-Same none w = ground arith
apply_answer-Same (some res) w = apply_settings-Same res w.attempt

ask_flow-Same :
    (flow : Effect → Option FlowResult) (req : Effect) (w : World)
    → Same w.attempt (ask_flow flow req w).0.attempt
unfolding ask_flow
ask_flow-Same flow req w = elim (Option-cases (flow req)) [
  | inl e ↦ rw (e, ask_flow) (ground arith)
  | inr (r, e) ↦ rw (e, ask_flow) (apply_answer-Same (schema_result r) (emit req w))
]

-- The flow after a distribution changes neither the state, the result nor the callback of the attempt.
pub after_distribute_schema-Same :
    (flow : Effect → Option FlowResult) (now : ℤ) (w : World)
    → Same w.attempt (after_distribute_schema flow now w).0.attempt
unfolding after_distribute_schema
after_distribute_schema-Same flow now w = elim (Option-cases w.attempt.queue) [
  | inl e ↦ ground arith
  | inr (q, e) ↦ elim (Option-cases (after_request now q w.attempt)) [
    | inl f ↦ ground arith
    | inr (req, f) ↦ ground (arith, ask_flow-Same flow req w)
  ]
]

-- What an agent's callback leaves.
pub record Applied (cb : AttemptCallback) (w u : World) (merged : AttemptCallback) : Type 0 where
  pub held : u.attempt.result ≡ some merged
  pub answered : (cb.status ==s "") ≡ false → result u.attempt ≡ cb.status
  pub unanswered : (cb.status ==s "") ≡ true → result u.attempt ≡ result w.attempt
  pub stated : (cb.status ==s "") ≡ false → (merged.status ==s "") ≡ false
  pub described : merged.description ≡ cb.description
  pub same_state : u.attempt.state ≡ w.attempt.state

-- The callback that `ApplyCallbackRules` gives back is the one that the attempt holds. It has a status
-- if the agent's had one, which is the result of the attempt even where the flow changes the status
-- of the callback; without a status the result is as it was. The state is not changed.
pub apply_callback_rules_lem :
    (flow : Effect → Option FlowResult) (now : ℤ) (cb : AttemptCallback) (w : World)
    → let (u, merged) = apply_callback_rules flow now cb w in Applied cb w u merged
unfolding apply_callback_rules merge_callback set_callback set_result result
apply_callback_rules_lem flow now cb w =
    let start = put (set_callback cb w.attempt) w in
    ground (arith, after_distribute_schema-Same flow now start, ==s_iff cb.status "")

-- What `ApplyCallbackRules` leaves alone.
pub record Kept (a b : Attempt) : Type 0 where
  pub kept_id : b.member.id ≡ a.member.id
  pub kept_queue : b.queue ≡ a.queue
  pub kept_channel : b.channel ≡ a.channel
  pub kept_cancel : b.canceled ≡ a.canceled

pub apply_callback_rules-Kept :
    (flow : Effect → Option FlowResult) (now : ℤ) (cb : AttemptCallback) (w : World)
    → Kept w.attempt (apply_callback_rules flow now cb w).0.attempt
unfolding apply_callback_rules merge_callback set_callback set_result
apply_callback_rules-Kept flow now cb w =
    let start = put (set_callback cb w.attempt) w in
    let same = after_distribute_schema-Same flow now start in
    record {
      kept_id = ground (arith, same);
      kept_queue = ground (arith, same);
      kept_channel = ground (arith, same);
      kept_cancel = ground (arith, same);
    }

-- ===== src/Queue/JoinAgent.antt =====
-- queue/queue_manager.go, `DistributeCallToAgent`, `OutboundCall` and `DistributeTaskToAgent`: the
-- settings of the queue that the manager makes up for one agent, from the request's processing. The
-- request is a message of gen/cc.
pub mod Settings
mod Tests
use call_center.Prelude.{
  ℕ, String, Option, none, some, List, [], ◌∷◌, Bool, true, false, ltb, if◌then◌else◌, ◌==s◌,
}
use call_center.Prelude.Int.{ℤ, pos, ltb_ℤ}
use call_center.Model.Maps.{StringMap}
use call_center.Model.Queue.{
  Queue, QueueDumpParams, is_set, has_prolongation_params, use_prolongation_options,
  queue_type_agent_task, queue_type_outbound_call,
}

pub record ProcessingProlongation : Type 0 where
  pub enabled : Bool
  pub repeats_number : ℕ
  pub prolongation_time_sec : ℕ
  pub is_timeout_retry : Bool

-- `Processing` of a request; the id of the form is 0 for no form.
pub record Processing : Type 0 where
  pub enabled : Bool
  pub autosave : Bool
  pub sec : ℕ
  pub renewal_sec : ℕ
  pub form_id : ℤ
  pub without_answer : Bool
  pub prolongation : Option ProcessingProlongation

abbrev empty_params : String → QueueDumpParams
empty_params name = record {
  has_reporting = none;
  has_form = none;
  processing_sec = 0;
  processing_autosave = false;
  processing_renewal_sec = 0;
  queue_name = name;
  has_prolongation = none;
  remaining_prolongations = 0;
  prolongation_sec = 0;
  is_timeout_retry = false;
}

unfoldable pub dump_prolongation : Option ProcessingProlongation → QueueDumpParams → QueueDumpParams
dump_prolongation none p = p
dump_prolongation (some l) p =
    if l.enabled
    then record p {
      has_prolongation = some true;
      remaining_prolongations = l.repeats_number;
      prolongation_sec = l.prolongation_time_sec;
      is_timeout_retry = l.is_timeout_retry;
    }
    else p

-- What the three methods share.
unfoldable pub dump_processing : Bool → Processing → QueueDumpParams → QueueDumpParams
unfolding dump_prolongation
dump_processing autosave g p = dump_prolongation g.prolongation (record p {
  has_reporting = some true;
  has_form = if ltb_ℤ (pos 0) g.form_id then some true else p.has_form;
  processing_sec = g.sec;
  processing_autosave = autosave;
  processing_renewal_sec = g.renewal_sec;
})

abbrev pub or_agent : String → String
or_agent name = if name ==s "" then "agent" else name

-- The parameters that the store is told: of a call to an agent, an outbound call and a task.
unfoldable pub call_params : String → Option Processing → QueueDumpParams
unfolding dump_processing
call_params name none = empty_params (or_agent name)
call_params name (some g) =
    if g.enabled
    then dump_processing g.autosave g (empty_params (or_agent name))
    else empty_params (or_agent name)

unfoldable pub outbound_params : String → Option Processing → QueueDumpParams
unfolding dump_processing
outbound_params name none = empty_params name
outbound_params name (some g) =
    if g.enabled then dump_processing g.autosave g (empty_params name) else empty_params name

unfoldable pub task_params : String → Option Processing → QueueDumpParams
unfolding dump_processing
task_params name none = empty_params (or_agent name)
task_params name (some g) =
    if g.enabled
    then dump_processing false g (empty_params (or_agent name))
    else empty_params (or_agent name)

-- The settings before the processing.
unfoldable pub agent_settings : ℤ → ℕ → ℤ → QueueDumpParams → Queue
agent_settings domain_id type team_id p = record {
  id = pos 0;
  domain_id = domain_id;
  type = type;
  name = p.queue_name;
  updated_at = pos 0;
  variables = none;
  team_id = some team_id;
  ringtone_id = none;
  ringtone_type = none;
  after_schema_id = none;
  processing = false;
  processing_sec = 30;
  processing_renewal_sec = 15;
  processing_autosave = false;
  endless = false;
  hooks = [];
  grantee_id = none;
  form_schema_id = none;
  is_prolongation_enabled = false;
  prolongation_repeats = 0;
  prolongation_sec = 0;
  is_prolongation_timeout_retry = false;
}

abbrev pub form_of : Option Processing → Option ℤ
form_of none = none
form_of (some g) = if ltb_ℤ (pos 0) g.form_id then some g.form_id else none

unfoldable pub set_processing : Option Processing → QueueDumpParams → Queue → Queue
set_processing g p q =
    if is_set p.has_reporting
    then record q {
      processing = true;
      processing_sec = p.processing_sec;
      processing_renewal_sec = p.processing_renewal_sec;
      form_schema_id = form_of g;
    }
    else q

unfoldable pub set_prolongation : QueueDumpParams → Queue → Queue
unfolding has_prolongation_params use_prolongation_options
set_prolongation p q =
    if is_set p.has_reporting
    then if has_prolongation_params p then use_prolongation_options p q else q
    else q

-- The settings of the three methods; that of a task gets no prolongation.
unfoldable pub call_settings : ℤ → ℤ → String → Option Processing → Queue
unfolding call_params agent_settings set_processing set_prolongation
call_settings domain_id team_id name g =
    let p = call_params name g in
    set_prolongation p (set_processing g p (agent_settings domain_id 10 team_id p))

unfoldable pub outbound_settings : ℤ → ℤ → String → Option Processing → Queue
unfolding outbound_params agent_settings set_processing set_prolongation
outbound_settings domain_id team_id name g =
    let p = outbound_params name g in
    set_prolongation p
      (set_processing g p (agent_settings domain_id queue_type_outbound_call team_id p))

unfoldable pub task_settings : ℤ → ℤ → String → Option Processing → Queue
unfolding task_params agent_settings set_processing
task_settings domain_id team_id name g =
    let p = task_params name g in
    let auto_answer = some (("wbt_auto_answer", "true") ∷ []) in
    set_processing g p (record (agent_settings domain_id queue_type_agent_task team_id p) {
      variables = auto_answer;
    })

-- ===== src/Queue/JoinAgent/Settings.antt =====
-- queue/queue_manager.go: what an agent's queue takes from the processing of a request.
use call_center.Prelude.{String, Option, none, some, true, false, ◌≡◌, arith}
use call_center.Prelude.Int.{ℤ}
use call_center.Model.Queue.{Queue, has_prolongation_params, use_prolongation_options}
use call_center.Queue.JoinAgent.{
  Processing, ProcessingProlongation, dump_prolongation, dump_processing, call_params,
  outbound_params, task_params, agent_settings, form_of, set_processing, set_prolongation,
  call_settings, outbound_settings, task_settings,
}

-- The times and the form of the processing.
pub record Takes (g : Processing) (q : Queue) : Type 0 where
  pub reports : q.processing ≡ true
  pub time : q.processing_sec ≡ g.sec
  pub renewal : q.processing_renewal_sec ≡ g.renewal_sec
  pub form : q.form_schema_id ≡ form_of (some g)

-- Its prolongation, where it has one that is enabled.
abbrev pub Prolongs : Option ProcessingProlongation → Queue → Type 0
Prolongs none q = q.is_prolongation_enabled ≡ false
Prolongs (some l) q =
    (q.is_prolongation_enabled ≡ l.enabled)
    × (l.enabled ≡ true
        → (q.prolongation_repeats ≡ l.repeats_number)
          × (q.prolongation_sec ≡ l.prolongation_time_sec)
          × (q.is_prolongation_timeout_retry ≡ l.is_timeout_retry))

call_Takes :
    (domain_id team_id : ℤ) (name : String) (g : Processing)
    → g.enabled ≡ true
    → Takes g (call_settings domain_id team_id name (some g))
unfolding call_settings call_params outbound_params dump_processing dump_prolongation set_processing
    set_prolongation has_prolongation_params use_prolongation_options agent_settings
call_Takes domain_id team_id name g on = record {
  reports = ground arith;
  time = ground arith;
  renewal = ground arith;
  form = ground arith;
}

task_Takes :
    (domain_id team_id : ℤ) (name : String) (g : Processing)
    → g.enabled ≡ true
    → Takes g (task_settings domain_id team_id name (some g))
unfolding task_settings task_params dump_processing dump_prolongation set_processing agent_settings
task_Takes domain_id team_id name g on = record {
  reports = ground arith;
  time = ground arith;
  renewal = ground arith;
  form = ground arith;
}

call_Prolongs :
    (domain_id team_id : ℤ) (name : String) (g : Processing)
    → g.enabled ≡ true
    → Prolongs g.prolongation (call_settings domain_id team_id name (some g))
unfolding call_settings call_params dump_processing dump_prolongation set_processing
    set_prolongation has_prolongation_params use_prolongation_options agent_settings
call_Prolongs domain_id team_id name g on = elim g.prolongation [
  | none ↦ ground arith
  | some l ↦ ground arith
]

outbound_Prolongs :
    (domain_id team_id : ℤ) (name : String) (g : Processing)
    → g.enabled ≡ true
    → Prolongs g.prolongation (outbound_settings domain_id team_id name (some g))
unfolding outbound_settings outbound_params dump_processing dump_prolongation set_processing
    set_prolongation has_prolongation_params use_prolongation_options agent_settings
outbound_Prolongs domain_id team_id name g on = elim g.prolongation [
  | none ↦ ground arith
  | some l ↦ ground arith
]

-- A request whose processing is enabled. The queue of a call to an agent and that of a task take the
-- times and the form of the processing; the queue of a call and that of an outbound call take its
-- prolongation, that of a task never has one. The store is told whether the processing saves by
-- itself, but the queue of a call never does so.
pub settings_lem :
    (domain_id team_id : ℤ) (name : String) (g : Processing)
    → g.enabled ≡ true
    → Takes g (call_settings domain_id team_id name (some g))
      × Takes g (task_settings domain_id team_id name (some g))
      × Prolongs g.prolongation (call_settings domain_id team_id name (some g))
      × Prolongs g.prolongation (outbound_settings domain_id team_id name (some g))
      × ((task_settings domain_id team_id name (some g)).is_prolongation_enabled ≡ false)
      × ((call_params name (some g)).processing_autosave ≡ g.autosave)
      × ((call_settings domain_id team_id name (some g)).processing_autosave ≡ false)
unfolding call_settings call_params task_settings task_params dump_processing dump_prolongation
    set_processing set_prolongation has_prolongation_params use_prolongation_options agent_settings
settings_lem domain_id team_id name g on = (
  call_Takes domain_id team_id name g on,
  task_Takes domain_id team_id name g on,
  call_Prolongs domain_id team_id name g on,
  outbound_Prolongs domain_id team_id name g on,
  ground arith,
  ground arith,
  ground arith,
)

-- ===== src/Queue/JoinAgent/Tests.antt =====
-- Requests to join an agent, and the queues that are made for them.
use call_center.Prelude.{String, ◌≡◌, refl, Option, none, some, true, false}
use call_center.Prelude.Int.{pos}
use call_center.Queue.State.{BaseQueue}
use call_center.Queue.Base.{new_base_queue, with_grantee, type_name}
use call_center.Queue.JoinAgent.{
  Processing, call_settings, call_params, outbound_settings, task_settings, set_processing,
  set_prolongation, agent_settings,
}
use call_center.Queue.JoinAgent.Settings.{Takes, Prolongs, settings_lem}

abbrev ten_seconds : Processing
ten_seconds = record {
  enabled = true;
  autosave = true;
  sec = 10;
  renewal_sec = 5;
  form_id = pos 4;
  without_answer = false;
  prolongation = some (record {
    enabled = true;
    repeats_number = 2;
    prolongation_time_sec = 20;
    is_timeout_retry = true;
  });
}

settings_lem_example :
    Takes ten_seconds (call_settings (pos 1) (pos 2) "" (some ten_seconds))
    × Takes ten_seconds (task_settings (pos 1) (pos 2) "" (some ten_seconds))
    × Prolongs ten_seconds.prolongation (call_settings (pos 1) (pos 2) "" (some ten_seconds))
    × Prolongs ten_seconds.prolongation (outbound_settings (pos 1) (pos 2) "" (some ten_seconds))
    × ((task_settings (pos 1) (pos 2) "" (some ten_seconds)).is_prolongation_enabled ≡ false)
    × ((call_params "" (some ten_seconds)).processing_autosave ≡ true)
    × ((call_settings (pos 1) (pos 2) "" (some ten_seconds)).processing_autosave ≡ false)
settings_lem_example = settings_lem (pos 1) (pos 2) "" ten_seconds refl

-- The queue of a call to an agent names itself one of outbound calls: its type is written as 10.
abbrev name_if_built : Option BaseQueue → String
name_if_built none = ""
name_if_built (some q) = type_name q

call_type : name_if_built (new_base_queue (call_settings (pos 1) (pos 2) "" none)) ≡ "outbound_call"
unfolding new_base_queue with_grantee type_name call_settings call_params set_processing
    set_prolongation agent_settings
call_type = refl

-- ===== src/Model/Queue.antt =====
-- model/queue.go, `Queue` and its methods, and `QueueDumpParams` of model/task.go. What only other
-- parts read, strategy, payload, music and the files for machines, is left out.
use call_center.Prelude.{
  ℕ, String, Option, none, some, List, Bool, true, false, ◌==◌, if◌then◌else◌,
}
use call_center.Prelude.Int.{ℤ}
use call_center.Model.Maps.{StringMap}

-- The constants count from 0; a type is of 8 bits.
abbrev pub queue_type_offline_call : ℕ
queue_type_offline_call = 0

abbrev pub queue_type_inbound_call : ℕ
queue_type_inbound_call = 1

abbrev pub queue_type_ivr_call : ℕ
queue_type_ivr_call = 2

abbrev pub queue_type_preview_call : ℕ
queue_type_preview_call = 3

abbrev pub queue_type_progressive_call : ℕ
queue_type_progressive_call = 4

abbrev pub queue_type_predict_call : ℕ
queue_type_predict_call = 5

abbrev pub queue_type_inbound_chat : ℕ
queue_type_inbound_chat = 6

abbrev pub queue_type_agent_task : ℕ
queue_type_agent_task = 7

abbrev pub queue_type_outbound_task : ℕ
queue_type_outbound_task = 8

abbrev pub queue_type_inbound_im : ℕ
queue_type_inbound_im = 9

abbrev pub queue_type_outbound_call : ℕ
queue_type_outbound_call = 10

abbrev pub channel_call : String
channel_call = "call"

abbrev pub channel_chat : String
channel_chat = "chat"

abbrev pub channel_task : String
channel_task = "task"

abbrev pub channel_out_call : String
channel_out_call = "out_call"

abbrev pub channel_im : String
channel_im = "im"

-- `Queue`: the hooks are events with their schemas; a nil map of variables is `none`.
pub record Queue : Type 0 where
  pub id : ℤ
  pub domain_id : ℤ
  pub type : ℕ
  pub name : String
  pub updated_at : ℤ
  pub variables : Option StringMap
  pub team_id : Option ℤ
  pub ringtone_id : Option ℤ
  pub ringtone_type : Option String
  pub after_schema_id : Option ℤ
  pub processing : Bool
  pub processing_sec : ℕ
  pub processing_renewal_sec : ℕ
  pub processing_autosave : Bool
  pub endless : Bool
  pub hooks : List (String × ℕ)
  pub grantee_id : Option ℤ
  pub form_schema_id : Option ℤ
  pub is_prolongation_enabled : Bool
  pub prolongation_repeats : ℕ
  pub prolongation_sec : ℕ
  pub is_prolongation_timeout_retry : Bool

pub record QueueDumpParams : Type 0 where
  pub has_reporting : Option Bool
  pub has_form : Option Bool
  pub processing_sec : ℕ
  pub processing_autosave : Bool
  pub processing_renewal_sec : ℕ
  pub queue_name : String
  pub has_prolongation : Option Bool
  pub remaining_prolongations : ℕ
  pub prolongation_sec : ℕ
  pub is_timeout_retry : Bool

-- `Channel`
unfoldable pub queue_channel : Queue → String
queue_channel q =
    if q.type == queue_type_inbound_chat
    then channel_chat
    else if q.type == queue_type_agent_task
    then channel_task
    else if q.type == queue_type_outbound_task
    then channel_task
    else if q.type == queue_type_outbound_call
    then channel_out_call
    else if q.type == queue_type_inbound_im
    then channel_im
    else channel_call

-- A pointer that is there and leads to true.
abbrev pub is_set : Option Bool → Bool
is_set none = false
is_set (some b) = b

unfoldable pub has_prolongation_params : QueueDumpParams → Bool
has_prolongation_params p = is_set p.has_prolongation

unfoldable pub use_prolongation_options : QueueDumpParams → Queue → Queue
use_prolongation_options p q = record q {
  is_prolongation_enabled = true;
  prolongation_sec = p.prolongation_sec;
  prolongation_repeats = p.remaining_prolongations;
  is_prolongation_timeout_retry = p.is_timeout_retry;
}

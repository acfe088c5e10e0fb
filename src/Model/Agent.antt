-- ===== src/Model/Agent.antt =====
-- model/agent.go: an agent as the store holds it, its status, and the statuses' constructors.
use call_center.Prelude.{ℕ, String, Option, none, some, List, [], ◌∷◌, Bool, if◌then◌else◌, ◌==s◌}
use call_center.Prelude.Int.{ℤ, pos, ltb_ℤ}
use call_center.Model.Maps.{StringMap}

pub record Lookup : Type 0 where
  pub id : ℤ
  pub name : String

pub record AgentStatus : Type 0 where
  pub status : String
  pub status_payload : Option String
  pub status_comment : Option String
  pub status_preset : Option Lookup

-- The greeting and the push token are left out.
pub record Agent : Type 0 where
  pub agent_status : AgentStatus
  pub id : ℤ
  pub domain_id : ℤ
  pub user_id : Option ℤ
  pub name : String
  pub updated_at : ℤ
  pub destination : Option String
  pub extension : Option String
  pub team_id : ℤ
  pub team_updated_at : ℤ
  pub on_demand : Bool
  pub variables : StringMap
  pub chat_name : String

abbrev pub agent_status_online : String
agent_status_online = "online"

abbrev pub agent_status_offline : String
agent_status_offline = "offline"

abbrev pub agent_status_pause : String
agent_status_pause = "pause"

abbrev pub agent_status_break_out : String
agent_status_break_out = "break_out"

unfoldable pub online : Agent → Bool
online a = a.agent_status.status ==s agent_status_online

unfoldable pub offline : Agent → Bool
offline a = a.agent_status.status ==s agent_status_offline

unfoldable pub get_user_id : Agent → ℤ
get_user_id a = elim a.user_id [ some u ↦ u | none ↦ pos 0 ]

-- `WithStatusPreset`
unfoldable pub with_status_preset : Option Lookup → AgentStatus → AgentStatus
with_status_preset preset s = record s { status_preset = preset }

unfoldable pub apply_options : List (AgentStatus → AgentStatus) → AgentStatus → AgentStatus
apply_options [] s = s
apply_options (o ∷ os) s = apply_options os (o s)

unfoldable pub create_agent_status : String → List (AgentStatus → AgentStatus) → AgentStatus
unfolding apply_options
create_agent_status status options =
    apply_options options (record {
      status = status;
      status_payload = none;
      status_comment = none;
      status_preset = none;
    })

pub record AgentOnlineRequest : Type 0 where
  pub domain_id : ℤ
  pub agent_id : ℤ
  pub on_demand : Bool
  pub status : Option Lookup

unfoldable pub status_id_ptr : AgentOnlineRequest → Option ℤ
status_id_ptr r = elim r.status [
  | none ↦ none
  | some l ↦ if ltb_ℤ (pos 0) l.id then some l.id else none
]

-- `MissedAgent`
pub record MissedAgent : Type 0 where
  pub timestamp : ℤ
  pub no_answers : Option ℕ
  pub member_stop_cause : Option String

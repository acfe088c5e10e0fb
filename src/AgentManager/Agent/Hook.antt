-- ===== src/AgentManager/Agent/Hook.antt =====
-- `HookData` of agent_manager/agent.go, after a change of the status.
use call_center.Prelude.{String, Option, none, some, ◌≡◌, arith, string_key}
use call_center.Prelude.Fmt.{show_int}
use call_center.Prelude.StringMap.{lookup, insert}
use call_center.Model.Agent.{Agent, AgentStatus, Lookup}
use call_center.AgentManager.Agent.{user_id, store_status, hook_data}

abbrev pub preset_id : Option Lookup → Option String
preset_id none = none
preset_id (some l) = some (show_int l.id)

abbrev pub preset_name : Option Lookup → Option String
preset_name none = none
preset_name (some l) = some l.name

-- What the flow of an agent's hook is told.
pub record Tells (a : Agent) (s : AgentStatus) : Type 0 where
  pub tells_status : lookup "status" (hook_data a) ≡ some s.status
  pub tells_payload : lookup "status_payload" (hook_data a) ≡ s.status_payload
  pub tells_preset : lookup "online_skill.id" (hook_data a) ≡ preset_id s.status_preset
  pub tells_preset_name : lookup "online_skill.name" (hook_data a) ≡ preset_name s.status_preset
  pub tells_extension : lookup "extension" (hook_data a) ≡ a.extension
  pub tells_agent : lookup "agent_id" (hook_data a) ≡ some (show_int a.id)
  pub tells_user : lookup "user_id" (hook_data a) ≡ some (show_int (user_id a))
  pub tells_team : lookup "team_id" (hook_data a) ≡ some (show_int a.team_id)

-- After a status is stored, the data for the agent's hook are of this status, of the same agent, user,
-- team and extension; the optional ones are there exactly if they are set.
pub hook_data-store_status : (s : AgentStatus) (a : Agent) → Tells (store_status s a) s
unfolding hook_data store_status lookup insert
hook_data-store_status s a = record {
  tells_status = ground arith;
  tells_payload = ground arith;
  tells_preset = ground arith;
  tells_preset_name = ground arith;
  tells_extension = ground arith;
  tells_agent = ground arith;
  tells_user = ground arith;
  tells_team = ground arith;
}

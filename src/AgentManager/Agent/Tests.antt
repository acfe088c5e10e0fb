-- ===== src/AgentManager/Agent/Tests.antt =====
-- The theorem on the data of an agent's hook, at an agent with a preset status.
use call_center.Prelude.{none, some, [], ◌∷◌, false}
use call_center.Prelude.Int.{pos}
use call_center.Model.Agent.{
  Agent, AgentStatus, create_agent_status, with_status_preset, agent_status_pause,
}
use call_center.AgentManager.Agent.{store_status}
use call_center.AgentManager.Agent.Hook.{Tells, hook_data-store_status}

abbrev paused : AgentStatus
paused =
    create_agent_status agent_status_pause
      (with_status_preset (some (record { id = pos 3; name = "lunch" })) ∷ [])

abbrev agent : Agent
agent = record {
  agent_status = create_agent_status "online" [];
  id = pos 5;
  domain_id = pos 1;
  user_id = some (pos 10);
  name = "Ann";
  updated_at = pos 0;
  destination = none;
  extension = some "101";
  team_id = pos 2;
  team_updated_at = pos 0;
  on_demand = false;
  variables = [];
  chat_name = "";
}

hook_data-store_status_example : Tells (store_status paused agent) paused
hook_data-store_status_example = hook_data-store_status paused agent

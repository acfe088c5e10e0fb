-- ===== src/AgentManager/Agent.antt =====
-- agent_manager/agent.go: the methods of an agent on the data of the store. The mutex makes each
-- method atomic; the logger is left out.
mod Tests
pub mod Hook
use call_center.Prelude.{ℕ, String, Option, none, some, List, [], ◌∷◌, Bool, not, string_key}
use call_center.Prelude.Int.{ℤ, pos, ◌==ℤ◌}
use call_center.Prelude.Fmt.{show_int}
use call_center.Prelude.StringMap.{insert}
use call_center.Model.Maps.{StringMap}
use call_center.Model.Agent.{Agent, AgentStatus, Lookup}

unfoldable pub user_id : Agent → ℤ
user_id a = elim a.user_id [ some u ↦ u | none ↦ pos 0 ]

unfoldable pub is_expire : ℤ → Agent → Bool
is_expire updated_at a = not (a.updated_at ==ℤ updated_at)

-- The comment of the status is not taken over.
unfoldable pub store_status : AgentStatus → Agent → Agent
store_status s a = record a {
  agent_status = record a.agent_status {
    status = s.status;
    status_payload = s.status_payload;
    status_preset = s.status_preset;
  };
}

unfoldable pub get_call_endpoints : Agent → List String
get_call_endpoints a = elim a.destination [ none ↦ [] | some d ↦ d ∷ [] ]

unfoldable pub call_number : Agent → String
call_number a = elim a.extension [ none ↦ "" | some e ↦ e ]

unfoldable pub set_team_updated_at : ℤ → Agent → Agent
set_team_updated_at at a = record a { team_updated_at = at }

unfoldable pub set_on_demand : Bool → Agent → Agent
set_on_demand v a = record a { on_demand = v }

abbrev pub insert_some : String → Option String → StringMap → StringMap
insert_some k none m = m
insert_some k (some v) m = insert k v m

abbrev pub insert_preset : Option Lookup → StringMap → StringMap
insert_preset none m = m
insert_preset (some l) m =
    insert "online_skill.name" l.name (insert "online_skill.id" (show_int l.id) m)

unfoldable pub hook_data : Agent → StringMap
unfolding insert show_int user_id
hook_data a = insert_preset a.agent_status.status_preset (
    insert_some "extension" a.extension (
      insert_some "status_payload" a.agent_status.status_payload (
        insert "status" a.agent_status.status (
          insert "agent_name" a.name (
            insert "team_id" (show_int a.team_id)
              (insert "user_id" (show_int (user_id a)) (insert "agent_id" (show_int a.id) [])))))))

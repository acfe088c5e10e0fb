-- ===== src/App/Agent/Tests.antt =====
-- The theorems on going online and on pausing, at an agent that is paused.
use call_center.Prelude.{◌≡◌, refl, some, none, [], true, false, inl, inr, arith}
use call_center.Prelude.Int.{pos, int_key}
use call_center.Prelude.StringMap.{lookup}
use call_center.Lru.{new_lru_with_params, get, find}
use call_center.Model.{new_app_error}
use call_center.Model.Agent.{Agent, AgentOnlineRequest}
use call_center.Queue.Manager.{new_queue_manager}
use call_center.AgentManager.Manager.{Services, new_agent_manager, put_agent_cache}
use call_center.AgentManager.Manager.Cached.{Has}
use call_center.App.Agent.{App, AppStore, AgentOnlineRow, online_data, agent_go_online}
use call_center.App.Agent.Laws.{Online, Answered, agent_go_online_lem}

abbrev eve : Agent
eve = record {
  agent_status = record {
    status = "pause";
    status_payload = some "lunch";
    status_comment = none;
    status_preset = none;
  };
  id = pos 5;
  domain_id = pos 1;
  user_id = some (pos 10);
  name = "Eve";
  updated_at = pos 7;
  destination = none;
  extension = none;
  team_id = pos 2;
  team_updated_at = pos 0;
  on_demand = false;
  variables = [];
  chat_name = "";
}

abbrev eve_online : AgentOnlineRow
eve_online = record {
  timestamp = pos 9;
  channels = [];
  status_preset = record { id = pos 3; name = "skills" };
  agent = eve;
}

abbrev store : AppStore
store = record {
  set_online_atomic = λ r. inr eve_online;
  allow_pause = λ domain id. inr false;
  no_answer_channels = λ id types. [];
}

abbrev app : App
app = record { agents = new_agent_manager; attempts = new_queue_manager true; asked = [] }

abbrev request : AgentOnlineRequest
request = record { domain_id = pos 1; agent_id = pos 5; on_demand = true; status = none }

-- The cache of the agents is empty at first.
empty_miss : (get (pos 3) new_agent_manager.agents (pos 5)).1 ≡ none
unfolding new_agent_manager new_lru_with_params get find lookup
empty_miss = refl

none_cached : (c : Agent) → Has (pos 3) (pos 5) new_agent_manager c → c.id ≡ pos 5
none_cached c h = ground (arith, h.hit, empty_miss)

agent_go_online_lem_example :
    Answered
      (online_data eve_online)
      (Online request eve_online (put_agent_cache (pos 3) eve new_agent_manager).1 app)
      (agent_go_online store (pos 3) request app)
agent_go_online_lem_example =
    agent_go_online_lem store (pos 3) request eve_online app refl none_cached

abbrev services : Services
services = record {
  set_status = λ id s. none;
  set_online = λ id d. inl (new_app_error "Store" "store" "" (pos 500));
  published = λ e. none;
  load = λ id. inr eve;
}

abbrev allowing : AppStore
allowing = record store { allow_pause = λ domain id. inr true }

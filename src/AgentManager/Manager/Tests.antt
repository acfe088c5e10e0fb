-- ===== src/AgentManager/Manager/Tests.antt =====
-- The theorems on the manager of agents, at an agent that the cache has.
use call_center.Prelude.{◌≡◌, refl, some, none, [], ◌∷◌, true, false, inr, nat_key, arith}
use call_center.Prelude.Int.{pos, int_key, int64, ◌+ℤ◌}
use call_center.Prelude.StringMap.{lookup}
use call_center.Model.Agent.{Agent, create_agent_status, with_status_preset, agent_status_online}
use call_center.Lru.{get, find, add_with_expires_in_secs, evict, push_new, deadline}
use call_center.Lru.Elements.{deref}
use call_center.AgentManager.Manager.{
  AgentOnlineData, Services, Manager, new_agent_manager, put_agent_cache, get_agent, set_online,
  event_of, online_changed, online_written,
}
use call_center.AgentManager.Manager.Refines.{
  goes_online, goes_offline, pauses, breaks_out, run, view, spec_run, run-view,
}
use call_center.AgentManager.Manager.Cached.{
  Has, Latest, Answers, put_agent_cache_lem, get_agent_lem, set_online_lem,
}

abbrev ann : Agent
ann = record {
  agent_status = create_agent_status "offline" [];
  id = pos 5;
  domain_id = pos 1;
  user_id = some (pos 10);
  name = "Ann";
  updated_at = pos 7;
  destination = none;
  extension = some "101";
  team_id = pos 2;
  team_updated_at = pos 0;
  on_demand = false;
  variables = [];
  chat_name = "";
}

abbrev online_data : AgentOnlineData
online_data = record {
  timestamp = pos 9;
  channel = [];
  status_preset = some (record { id = pos 3; name = "skills" });
}

abbrev services : Services
services = record {
  set_status = λ id s. none;
  set_online = λ id d. inr online_data;
  published = λ e. none;
  load = λ id. inr ann;
}

abbrev manager : Manager
manager = (put_agent_cache (pos 1) ann new_agent_manager).0

-- An older version of the agent that the cache has.
abbrev ann_before : Agent
ann_before = record ann { updated_at = pos 6 }

manager_hit : (get (pos 2) manager.agents (pos 5)).1 ≡ some 0
unfolding put_agent_cache new_agent_manager find add_with_expires_in_secs evict push_new deref
    deadline int64 ◌+ℤ◌
manager_hit = refl

manager_has_ann : lookup 0 manager.heap ≡ some ann
unfolding put_agent_cache new_agent_manager find
manager_has_ann = refl

manager-own : (c : Agent) → Has (pos 2) (pos 5) manager c → c.id ≡ pos 5
manager-own c h = ground (arith, h.hit, h.agent, manager_hit, manager_has_ann)

put_agent_cache_lem_example :
    let (u, p) = put_agent_cache (pos 2) ann_before manager in
    (b : Agent) × (lookup p u.heap ≡ some b) × Latest (pos 2) ann_before manager b
put_agent_cache_lem_example = put_agent_cache_lem (pos 2) ann_before manager manager-own

get_agent_lem_example :
    let (u, r) = get_agent services (pos 2) (pos 5) (pos 8) manager in
    Answers services (pos 5) (pos 8) u r
get_agent_lem_example = get_agent_lem services (pos 2) (pos 5) (pos 8) manager

set_online_lem_example :
    let u = (set_online services true 0 ann manager).0 in
    ((b : Agent) × (lookup 0 u.heap ≡ some b)
      × ((b.agent_status.status ≡ "online")
          × (b.agent_status.status_preset ≡ none)
          × (b.on_demand ≡ true)
          × (b.id ≡ pos 5)))
    × (u.sent
        ≡ online_changed
            (event_of (pos 9) ann)
            (create_agent_status agent_status_online
              (with_status_preset online_data.status_preset ∷ []))
            []
            true
          ∷ online_written (pos 5) true
          ∷ manager.sent)
set_online_lem_example = set_online_lem services true 0 ann online_data manager refl

run-view_example :
    view (
      run services
        (pos 3)
        (goes_online 0 true
          ∷ pauses 0 (some "lunch") none
          ∷ breaks_out 0
          ∷ goes_offline 0 none
          ∷ [])
        manager)
    ≡ spec_run services
        (goes_online 0 true
          ∷ pauses 0 (some "lunch") none
          ∷ breaks_out 0
          ∷ goes_offline 0 none
          ∷ [])
        (view manager)
run-view_example =
    run-view services (pos 3)
      (goes_online 0 true ∷ pauses 0 (some "lunch") none ∷ breaks_out 0 ∷ goes_offline 0 none ∷ [])
      manager

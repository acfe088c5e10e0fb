-- ===== src/App/Agent/Laws.antt =====
-- app/agent.go: what going online does to the agent, and what it tells.
use call_center.Prelude.{
  ℕ, ◌≡◌, refl, ap, none, some, false, inl, inr, arith, ==_iff, [], ◌∷◌, nat_key,
}
use call_center.Prelude.Int.{ℤ, ltb_ℤ}
use call_center.Prelude.StringMap.{lookup, lookup-insert}
use call_center.Model.Agent.{
  Agent, AgentStatus, Lookup, AgentOnlineRequest, create_agent_status, with_status_preset,
  agent_status_online,
}
use call_center.AgentManager.Agent.{user_id, store_status, set_on_demand}
use call_center.AgentManager.Manager.{
  Manager, Sent, put_agent, put_agent_cache, cached, add_agent, event_of,
}
use call_center.AgentManager.Manager.Cached.{Has, put_agent_cache_lem}
use call_center.App.Agent.{
  App, AppStore, AgentOnlineRow, Asked, Result, online_data, online_at, agent_go_online,
}

-- The status that the event tells.
abbrev pub online_with : Lookup → AgentStatus
online_with preset = record {
  status = "online";
  status_payload = none;
  status_comment = none;
  status_preset = some preset;
}

-- What going online leaves, at the address that the cache answers for the agent of the store.
pub record Online (r : AgentOnlineRequest) (row : AgentOnlineRow) (p : ℕ) (s u : App) : Type 0 where
  pub agent : Agent
  pub there : lookup p u.agents.heap ≡ some agent
  pub same_id : agent.id ≡ row.agent.id
  pub status : agent.agent_status.status ≡ "online"
  pub preset : agent.agent_status.status_preset ≡ some row.status_preset
  pub on_demand : agent.on_demand ≡ r.on_demand
  pub not_older : ltb_ℤ agent.updated_at row.agent.updated_at ≡ false
  pub told :
      u.agents.sent
      ≡ Sent.online_changed
          (event_of row.timestamp agent)
          (online_with row.status_preset)
          row.channels
          r.on_demand
        ∷ s.agents.sent
  pub hooked : u.asked ≡ Asked.hooks row.agent.id row.agent.team_updated_at ∷ s.asked

-- The method returns this, and this is how it leaves the program.
abbrev pub Answered : {A : Type 0} → A → (App → Type 0) → Result A → Type 0
Answered a P none = ⊥
Answered a P (some (u, inl e)) = ⊥
Answered a P (some (u, inr b)) = (b ≡ a) × P u

put_sent : (now : ℤ) (a : Agent) (s : Manager) → (put_agent_cache now a s).0.sent ≡ s.sent
unfolding put_agent_cache cached add_agent
put_sent now a s = ground arith

-- An agent goes online, where the store accepts it and the cache has under the agent's id only agents of
-- this id: the method does not panic and answers the time, the channels and the preset of the store.
-- The agent that the cache answers for the store's is then online, with the preset of the store and the
-- demand of the request, and not older than the store's; one event tells this, and the hooks of the
-- team are asked for once, for the agent and the version of the team that the store gave.
pub agent_go_online_lem :
    (st : AppStore) (now : ℤ) (r : AgentOnlineRequest) (row : AgentOnlineRow) (s : App)
    → st.set_online_atomic r ≡ inr row
    → ((c : Agent) → Has now row.agent.id s.agents c → c.id ≡ row.agent.id)
    → Answered
        (online_data row)
        (Online r row (put_agent_cache now row.agent s.agents).1 s)
        (agent_go_online st now r s)
unfolding agent_go_online online_at put_agent store_status set_on_demand create_agent_status
    with_status_preset user_id
agent_go_online_lem st now r row s h own =
    let put = put_agent_cache now row.agent s.agents in
    let (b, at, latest) = put_agent_cache_lem now row.agent s.agents own in
    let status =
      create_agent_status agent_status_online (with_status_preset (some row.status_preset) ∷ []) in
    let online = store_status status (set_on_demand r.on_demand b) in
    rw (h, agent_go_online)
      (rw at (
        refl,
        record {
          agent = online;
          there = ground (arith, lookup-insert put.1 put.1 online put.0.heap, ==_iff put.1 put.1);
          same_id = latest.same_id;
          status = refl;
          preset = refl;
          on_demand = refl;
          not_older = latest.not_older_put;
          told =
              ap
                (λ l.
                  Sent.online_changed (event_of row.timestamp online)
                    (online_with row.status_preset) row.channels r.on_demand
                  ∷ l)
                (put_sent now row.agent s.agents);
          hooked = ap (λ id. Asked.hooks id row.agent.team_updated_at ∷ s.asked) latest.same_id;
        },
      ))

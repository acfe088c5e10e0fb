-- ===== src/App/Agent/Pauses.antt =====
-- app/agent.go: when `SetAgentPause` pauses an agent.
use call_center.Prelude.{ℕ, ◌≡◌, Option, none, some, inl, inr, ◌∷◌, String, nat_key}
use call_center.Prelude.Int.{ℤ}
use call_center.Prelude.StringMap.{lookup}
use call_center.Model.Agent.{Agent, AgentStatus}
use call_center.AgentManager.Manager.{Services, event_of}
use call_center.App.Agent.{App, Asked, Result, get_string}

-- The agent is paused already, with this payload; no payload is the empty one.
abbrev pub AlreadyPaused : Option String → Agent → Type 0
AlreadyPaused payload a =
    (a.agent_status.status ≡ "pause")
    × (get_string a.agent_status.status_payload ≡ get_string payload)

-- What a pause leaves: the shared agent of the version that the store has is paused with this payload,
-- and the hooks of the team are asked for once.
pub record Paused (payload : Option String) (a : Agent) (s u : App) : Type 0 where
  pub address : ℕ
  pub agent : Agent
  pub there : lookup address u.agents.heap ≡ some agent
  pub same_version : agent.updated_at ≡ a.updated_at
  pub status : agent.agent_status.status ≡ "pause"
  pub same_payload : agent.agent_status.status_payload ≡ payload
  pub hooked : u.asked ≡ Asked.hooks agent.id a.team_updated_at ∷ s.asked

-- The method returns without an error.
abbrev pub Succeeds : (App → Type 0) → Result (Unit {0}) → Type 0
Succeeds P none = ⊥
Succeeds P (some (u, inl e)) = ⊥
Succeeds P (some (u, inr x)) = P u

-- The store and the broker take every change of a status.
pub record Accepts (sv : Services) : Type 0 where
  pub written : (id : ℤ) (status : AgentStatus) → sv.set_status id status ≡ none
  pub told : (now : ℤ) (a : Agent) → sv.published (event_of now a) ≡ none

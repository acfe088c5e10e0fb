-- ===== src/AgentManager/Manager.antt =====
-- agent_manager/agent_manager.go: the cache of the agents and the changes of their statuses. The cache
-- holds addresses of agents, which the queues share. The store and the broker are parameters.
pub mod Refines
pub mod Watcher
pub mod Cached
mod Tests
use Prim.Native.String.{◌++◌}
use call_center.Prelude.{
  ℕ, ◌+◌, String, Option, none, some, List, [], ◌∷◌, Bool, true, false, not, ◌||◌, if◌then◌else◌,
  ◌⊎◌, inl, inr, nat_key,
}
use call_center.Prelude.Int.{ℤ, pos, ltb_ℤ, ◌==ℤ◌, int_key}
use call_center.Prelude.StringMap.{lookup, insert}
use call_center.Model.{AppError}
use call_center.Model.Agent.{
  Agent, AgentStatus, Lookup, create_agent_status, with_status_preset, agent_status_online,
  agent_status_offline, agent_status_pause, agent_status_break_out,
}
use call_center.Lru.{Cache, get, add_with_default_expires, new_lru_with_params}
use call_center.AgentManager.Agent.{
  user_id, is_expire, store_status, set_team_updated_at, set_on_demand,
}

pub record AgentChannel : Type 0 where
  pub channel : String
  pub state : String
  pub joined_at : ℤ
  pub online : Bool

pub record AgentOnlineData : Type 0 where
  pub timestamp : ℤ
  pub channel : List AgentChannel
  pub status_preset : Option Lookup

-- The fields of `AgentEvent`.
pub record AgentEvent : Type 0 where
  pub agent_id : ℤ
  pub user_id : ℤ
  pub domain_id : ℤ
  pub timestamp : ℤ

-- What the manager sends: the writes to the store, the events of the broker, and the hook of an agent
-- that went offline by itself.
pub data Sent : Type 0 where
  status_written : ℤ → AgentStatus → Sent
  online_written : ℤ → Bool → Sent
  status_changed : AgentEvent → AgentStatus → Sent
  online_changed : AgentEvent → AgentStatus → List AgentChannel → Bool → Sent
  hooked_offline : ℤ → Sent

-- The answers of the store and the broker.
pub record Services : Type 0 where
  pub set_status : ℤ → AgentStatus → Option AppError
  pub set_online : ℤ → Bool → AppError ⊎ AgentOnlineData
  pub published : AgentEvent → Option AppError
  pub load : ℤ → AppError ⊎ Agent

pub record Manager : Type 0 where
  pub agents : Cache ℤ ℕ
  pub heap : List (ℕ × Agent)
  pub next : ℕ
  pub sent : List Sent

abbrev pub size_agent_cache : ℕ
size_agent_cache = 10000

abbrev pub expire_agent_cache : ℤ
expire_agent_cache = pos 300

unfoldable pub new_agent_manager : Manager
unfolding new_lru_with_params
new_agent_manager = record {
  agents = new_lru_with_params size_agent_cache expire_agent_cache;
  heap = [];
  next = 0;
  sent = [];
}

abbrev pub send : Sent → Manager → Manager
send e s = record s { sent = e ∷ s.sent }

unfoldable pub put_agent : ℕ → Agent → Manager → Manager
unfolding insert
put_agent p a s = record s { heap = insert p a s.heap }

-- `NewAgent`, and its place in the cache.
unfoldable pub add_agent : ℤ → ℤ → Agent → Manager → Manager × ℕ
unfolding insert add_with_default_expires
add_agent now id a s = (
  record s {
    agents = add_with_default_expires now s.agents id s.next;
    heap = insert s.next a s.heap;
    next = s.next + 1;
  },
  s.next,
)

-- An address that the cache gave, if its agent passes the test.
unfoldable pub kept : (Agent → Bool) → List (ℕ × Agent) → Option ℕ → Option ℕ
unfolding lookup
kept test heap none = none
kept test heap (some p) = elim (lookup p heap) [
  | none ↦ none
  | some c ↦ if test c then some p else none
]

-- The agent that the cache has for an id, if it passes the test.
unfoldable pub cached : ℤ → ℤ → (Agent → Bool) → Manager → Manager × Option ℕ
unfolding get kept
cached now id test s =
    let (read, hit) = get now s.agents id in (record s { agents = read }, kept test s.heap hit)

abbrev pub not_older : Agent → Agent → Bool
not_older a c = not (ltb_ℤ c.updated_at a.updated_at)

abbrev pub is_fresh : ℤ → Agent → Bool
is_fresh updated_at c = not (is_expire updated_at c)

-- `PutAgentCache`: an agent of the cache that is not older is kept.
unfoldable pub put_agent_cache : ℤ → Agent → Manager → Manager × ℕ
unfolding cached add_agent
put_agent_cache now a s =
    let (read, hit) = cached now a.id (not_older a) s in
    elim hit [ some p ↦ (read, p) | none ↦ add_agent now a.id a read ]

unfoldable pub load_agent : Services → ℤ → ℤ → Manager → Manager × (AppError ⊎ ℕ)
unfolding add_agent
load_agent sv now id s = elim (sv.load id) [
  | inl e ↦ (s, inl e)
  | inr a ↦ (let (u, p) = add_agent now id a s in (u, inr p))
]

-- `GetAgent`, which looks into the cache once more when it has its turn to load.
unfoldable pub get_agent : Services → ℤ → ℤ → ℤ → Manager → Manager × (AppError ⊎ ℕ)
unfolding cached is_expire load_agent
get_agent sv now id updated_at s =
    let (read, hit) = cached now id (is_fresh updated_at) s in
    elim hit [
      | some p ↦ (read, inr p)
      | none ↦
          let (again, hit_again) = cached now id (is_fresh updated_at) read in
          elim hit_again [ some p ↦ (again, inr p) | none ↦ load_agent sv now id again ]
    ]

abbrev pub event_of : ℤ → Agent → AgentEvent
event_of now a = record {
  agent_id = a.id;
  user_id = user_id a;
  domain_id = a.domain_id;
  timestamp = now;
}

-- `setAgentStatus`, and then the change of the agent and the event: the end of `SetOffline`, `SetPause`
-- and `SetBreakOut`.
unfoldable pub set_agent_status :
    Services → ℤ → AgentStatus → ℕ → Agent → Manager → Manager × Option AppError
unfolding store_status put_agent
set_agent_status sv now status p a s =
    let written = send (status_written a.id status) s in
    elim (sv.set_status a.id status) [
      | some e ↦ (written, some e)
      | none ↦ (
        send (status_changed (event_of now a) status) (put_agent p (store_status status a) written),
        sv.published (event_of now a),
      )
    ]

-- `SetOnline`: the preset goes into the event, but not into the agent.
unfoldable pub set_online :
    Services
    → Bool
    → ℕ
    → Agent
    → Manager
    → Manager × (AppError ⊎ (AgentOnlineData × Option AppError))
unfolding store_status set_on_demand put_agent create_agent_status
set_online sv on_demand p a s =
    let written = send (online_written a.id on_demand) s in
    elim (sv.set_online a.id on_demand) [
      | inl e ↦ (written, inl e)
      | inr online_data ↦
          let online =
            store_status (create_agent_status agent_status_online []) (set_on_demand on_demand a) in
          let told =
            create_agent_status agent_status_online
              (with_status_preset online_data.status_preset ∷ []) in
          let event = event_of online_data.timestamp a in
          (
            send (online_changed event told online_data.channel on_demand)
                (put_agent p online written),
            inr (online_data, sv.published event),
          )
    ]

abbrev pub offline_status : Option String → AgentStatus
offline_status sys = record {
  status = agent_status_offline;
  status_payload = sys;
  status_comment = none;
  status_preset = none;
}

abbrev pub pause_status : Option String → Option String → AgentStatus
pause_status payload comment = record {
  status = agent_status_pause;
  status_payload = payload;
  status_comment = comment;
  status_preset = none;
}

abbrev pub break_out_status : AgentStatus
break_out_status = record {
  status = agent_status_break_out;
  status_payload = none;
  status_comment = none;
  status_preset = none;
}

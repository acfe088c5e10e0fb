-- ===== src/App/Agent.antt =====
-- app/agent.go: how an agent goes online, logs out and pauses, on the managers of the agents and of the
-- attempts. The store's other answers are a parameter; what the manager of the calls and the hooks of
-- the team are asked for is sent.
pub mod Laws
pub mod Pauses
mod Tests
use call_center.Prelude.{
  ℕ, String, Option, none, some, List, [], ◌∷◌, Bool, true, false, ◌&&◌, if◌then◌else◌, ◌==s◌, ◌⊎◌,
  inl, inr, nat_key,
}
use call_center.Prelude.Int.{ℤ, pos}
use call_center.Prelude.StringMap.{lookup}
use call_center.Model.{AppError, new_app_error}
use call_center.Model.Agent.{
  Agent, AgentStatus, AgentOnlineRequest, Lookup, create_agent_status, with_status_preset,
  agent_status_online, agent_status_pause, offline,
}
use call_center.Model.Queue.{queue_type_progressive_call}
use call_center.Queue.Attempt.{set_cancel}
use call_center.Queue.Manager.{get_attempt}
use call_center.Queue.Manager.Ending.{put_if}
use call_center.AgentManager.Agent.{store_status, set_on_demand}
use call_center.AgentManager.Manager
use call_center.AgentManager.Manager.{
  AgentChannel, AgentOnlineData, Services, Sent, put_agent, put_agent_cache, get_agent,
  set_agent_status, offline_status, pause_status, break_out_status, event_of, send,
}

-- `CallNoAnswer`
pub record CallNoAnswer : Type 0 where
  pub id : Option String
  pub app_id : Option String
  pub attempt_id : ℤ

-- The answer of `SetOnlineAtomic`.
pub record AgentOnlineRow : Type 0 where
  pub timestamp : ℤ
  pub channels : List AgentChannel
  pub status_preset : Lookup
  pub agent : Agent

pub record AppStore : Type 0 where
  pub set_online_atomic : AgentOnlineRequest → AppError ⊎ AgentOnlineRow
  pub allow_pause : ℤ → ℤ → AppError ⊎ Bool
  pub no_answer_channels : ℤ → List ℕ → List CallNoAnswer

-- What goes to the manager of the calls, and to the hooks of a team.
pub data Asked : Type 0 where
  hangs_up : String → String → Asked
  hooks : ℤ → ℤ → Asked

pub record App : Type 0 where
  pub agents : Manager.Manager
  pub attempts : call_center.Queue.Manager.Manager
  pub asked : List Asked

-- none is a panic; an error is what the client is told.
abbrev pub Result : Type 0 → Type 0
Result A = Option (App × (AppError ⊎ A))

abbrev pub refuse : {A : Type 0} → App → AppError → Result A
refuse s e = some (s, inl e)

abbrev pub done : App → Result (Unit {0})
done s = some (s, inr tt)

-- `AgentTeamHook`, asked for an agent of a version of its team.
abbrev pub hook : ℤ → ℤ → App → App
hook id at s = record s { asked = hooks id at ∷ s.asked }

-- `AgentGoOnline`: the agent that the store gives goes into the cache; the broker's error is only logged.
unfoldable pub online_at : ℤ → AgentOnlineRequest → AgentOnlineRow → ℕ → Agent → App → App
unfolding store_status set_on_demand create_agent_status put_agent
online_at now r row p a s =
    let preset = with_status_preset (some row.status_preset) ∷ [] in
    let status = create_agent_status agent_status_online preset in
    let told = Sent.online_changed (event_of row.timestamp a) status row.channels r.on_demand in
    hook a.id row.agent.team_updated_at (record s {
      agents = send told (put_agent p (store_status status (set_on_demand r.on_demand a)) s.agents);
    })

abbrev pub online_data : AgentOnlineRow → AgentOnlineData
online_data row = record {
  timestamp = row.timestamp;
  channel = row.channels;
  status_preset = some row.status_preset;
}

unfoldable pub agent_go_online : AppStore → ℤ → AgentOnlineRequest → App → Result AgentOnlineData
unfolding put_agent_cache lookup online_at
agent_go_online st now r s = elim (st.set_online_atomic r) [
  | inl e ↦ refuse s e
  | inr row ↦
      let (put, p) = put_agent_cache now row.agent s.agents in
      elim (lookup p put.heap) [
        | none ↦ none
        | some a ↦ some (online_at now r row p a (record s { agents = put }), inr (online_data row))
      ]
]

-- `hangupNoAnswerChannels`: a call of a node is hung up, an attempt is cancelled.
unfoldable pub cancel_attempt : ℤ → ℤ → App → Option App
unfolding get_attempt lookup set_cancel put_if
cancel_attempt now id s =
    let (read, hit) = get_attempt now id s.attempts in
    elim hit [
      | none ↦ some (record s { attempts = read })
      | some p ↦ elim (lookup p read.heap) [
        | none ↦ none
        | some c ↦ elim (put_if p c (set_cancel c.attempt) read) [
          | none ↦ none
          | some u ↦ some (record s { attempts = u })
        ]
      ]
    ]

unfoldable pub hangup_channel : ℤ → CallNoAnswer → App → Option App
unfolding cancel_attempt
hangup_channel now ch s = elim ch.id [
  | none ↦ cancel_attempt now ch.attempt_id s
  | some id ↦ elim ch.app_id [
    | none ↦ cancel_attempt now ch.attempt_id s
    | some app ↦ some (record s { asked = hangs_up id app ∷ s.asked })
  ]
]

abbrev pub and_then : {A : Type 0} → Option App → (App → Option A) → Option A
and_then none f = none
and_then (some s) f = f s

unfoldable pub hangup_no_answer_channels : ℤ → List CallNoAnswer → App → Option App
unfolding hangup_channel
hangup_no_answer_channels now [] s = some s
hangup_no_answer_channels now (ch ∷ chs) s =
    and_then (hangup_channel now ch s) (hangup_no_answer_channels now chs)

-- A change of the status of an agent's object, and the hook if it was told.
unfoldable pub change_status : Services → ℤ → AgentStatus → ℤ → ℕ → App → Result (Unit {0})
unfolding lookup set_agent_status
change_status sv now status at p s = elim (lookup p s.agents.heap) [
  | none ↦ none
  | some a ↦
      let (u, e) = set_agent_status sv now status p a s.agents in
      let set = record s { agents = u } in
      elim e [ some error ↦ refuse set error | none ↦ done (hook a.id at set) ]
]

-- The object of the agent that the store gave, and then the change.
unfoldable pub get_and_change : Services → ℤ → AgentStatus → ℤ → Agent → App → Result (Unit {0})
unfolding get_agent change_status
get_and_change sv now status id a s =
    let (read, found) = get_agent sv now id a.updated_at s.agents in
    let seen = record s { agents = read } in
    elim found [
      | inl e ↦ refuse seen e
      | inr p ↦ change_status sv now status a.team_updated_at p seen
    ]

abbrev pub err_logged_out : AppError
err_logged_out = new_app_error "SetAgentLogout" "app.agent.set_logout.agent_logged_out" "" (pos 400)

abbrev pub err_already : AppError
err_already =
    new_app_error "SetAgentPause" "app.agent.set_pause.payload" "already payload" (pos 400)

abbrev pub err_not_allowed : AppError
err_not_allowed =
    new_app_error "SetAgentPause" "app.agent.set_pause.not_allow" "You can't take a pause right now"
      (pos 400)

-- `SetAgentLogout`, which hangs up what a progressive queue dials for the agent.
unfoldable pub set_agent_logout : Services → AppStore → ℤ → ℤ → App → Result (Unit {0})
unfolding offline hangup_no_answer_channels get_and_change new_app_error
set_agent_logout sv st now id s = elim (sv.load id) [
  | inl e ↦ refuse s e
  | inr a ↦
      if offline a
      then refuse s err_logged_out
      else and_then
          (hangup_no_answer_channels now
            (st.no_answer_channels id (queue_type_progressive_call ∷ [])) s)
          (get_and_change sv now (offline_status none) id a)
]

abbrev pub get_string : Option String → String
get_string none = ""
get_string (some s) = s

abbrev pub is_paused_by : Option String → Agent → Bool
is_paused_by payload a =
    (a.agent_status.status ==s agent_status_pause)
    && (get_string a.agent_status.status_payload ==s get_string payload)

unfoldable pub pause_if_allowed :
    Services → AppStore → ℤ → ℤ → Option String → Option String → Agent → App → Result (Unit {0})
unfolding hangup_no_answer_channels get_and_change new_app_error
pause_if_allowed sv st now id payload comment a s = elim (st.allow_pause a.domain_id id) [
  | inl e ↦ refuse s e
  | inr allow ↦
      if allow
      then and_then (hangup_no_answer_channels now (st.no_answer_channels id []) s)
          (get_and_change sv now (pause_status payload comment) id a)
      else refuse s err_not_allowed
]

-- `SetAgentPause`
unfoldable pub set_agent_pause :
    Services → AppStore → ℤ → ℤ → Option String → Option String → App → Result (Unit {0})
unfolding pause_if_allowed new_app_error
set_agent_pause sv st now id payload comment s = elim (sv.load id) [
  | inl e ↦ refuse s e
  | inr a ↦
      if is_paused_by payload a
      then refuse s err_already
      else pause_if_allowed sv st now id payload comment a s
]

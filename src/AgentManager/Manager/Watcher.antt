-- ===== src/AgentManager/Manager/Watcher.antt =====
-- `changeDeadlineState` of agent_manager/agent_manager.go: the agents that the watcher puts offline.
use Prim.Native.String.{◌++◌}
use call_center.Prelude.{
  ℕ, String, Option, none, some, List, [], ◌∷◌, Bool, true, false, ◌||◌, if◌then◌else◌, inl, inr,
  nat_key,
}
use call_center.Prelude.Int.{ℤ, ◌==ℤ◌, int_key}
use call_center.Prelude.StringMap.{lookup}
use call_center.Model.{AppError}
use call_center.Model.Agent.{Agent}
use call_center.AgentManager.Agent.{set_team_updated_at}
use call_center.AgentManager.Manager.{
  hooked_offline, Services, Manager, send, put_agent, get_agent, set_agent_status, offline_status,
}

-- `AgentHashKey`
pub record AgentHashKey : Type 0 where
  pub id : ℤ
  pub updated_at : ℤ
  pub sip : Bool
  pub ws : Bool
  pub reason_sca : Bool
  pub team_updated_at : ℤ
  pub reason_no_cc_license : Bool

-- Why the watcher puts an agent offline.
unfoldable pub reason_of : AgentHashKey → Option String
reason_of v =
    if (v.ws || v.sip) || (v.reason_sca || v.reason_no_cc_license)
    then some (
        "system"
        ++ (if v.reason_sca then "/screen_control" else if v.ws then "/ws" else "")
        ++ (if v.sip then "/sip" else "")
        ++ (if v.reason_no_cc_license then "/no_cc_license" else ""))
    else none

abbrev pub with_team : ℤ → Agent → Agent
with_team at a = if a.team_updated_at ==ℤ at then a else set_team_updated_at at a

abbrev hook_unless : Bool → ℤ → Manager × Option AppError → Manager
hook_unless false id (s, e) = s
hook_unless true id (s, none) = send (hooked_offline id) s
hook_unless true id (s, some e) = s

-- One agent of the watcher's list; errors are only logged.
unfoldable pub put_offline : Services → Bool → ℤ → AgentHashKey → ℕ → Agent → Manager → Manager
unfolding put_agent set_agent_status reason_of set_team_updated_at
put_offline sv hook now v p a s =
    let own = with_team v.team_updated_at a in
    hook_unless hook own.id
      (set_agent_status sv now (offline_status (reason_of v)) p own (put_agent p own s))

unfoldable pub deadline_step : Services → Bool → ℤ → AgentHashKey → Manager → Manager
unfolding get_agent lookup put_offline
deadline_step sv hook now v s =
    let (read, found) = get_agent sv now v.id v.updated_at s in
    elim found [
      | inl e ↦ read
      | inr p ↦ elim (lookup p read.heap) [
        | none ↦ read
        | some a ↦ put_offline sv hook now v p a read
      ]
    ]

-- `changeDeadlineState`, on the list that the store gave.
unfoldable pub change_deadline_state : Services → Bool → ℤ → List AgentHashKey → Manager → Manager
unfolding deadline_step
change_deadline_state sv hook now [] s = s
change_deadline_state sv hook now (v ∷ vs) s =
    change_deadline_state sv hook now vs (deadline_step sv hook now v s)

-- ===== src/Queue/Team/Missed.antt =====
-- The agents that do not answer, in queue/team.go.
use call_center.Prelude.{
  ℕ, ◌+◌, String, Option, none, some, List, [], ◌∷◌, Bool, false, ◌≡◌, ◌≢◌, refl, inl, inr,
  Option-cases, subst, sym, ap, ◌∙◌, arith, if◌then◌else◌, leb,
}
use call_center.Prelude.Int.{ℤ, ◌==ℤ◌}
use call_center.Model.Agent.{Agent, MissedAgent}
use call_center.AgentManager.Agent.{user_id}
use call_center.Queue.State.{BaseQueue, ChannelEvent, Effect, World, emit, put}
use call_center.Queue.Attempt.Schema.{set_state, stamp_state, hook}
use call_center.Queue.Team.{Team, Services, to_agent, then_world, hook_missed}
use call_center.Queue.Team.Handlers.{
  missed_agent, over_limit, missed_until, set_agent_max_no_answer,
  missed_agent_and_waiting_attempt_with_error,
}

-- How often the agent of this id was put into the break-out.
abbrev is_break_out : ℤ → Effect → ℕ
is_break_out id (Effect.set_agent_break_out agent) = if id ==ℤ agent then 1 else 0
is_break_out id _ = 0

abbrev pub break_outs : ℤ → List Effect → ℕ
break_outs id [] = 0
break_outs id (e ∷ es) = is_break_out id e + break_outs id es

abbrev pub last_effect : List Effect → Option Effect
last_effect [] = none
last_effect (e ∷ es) = some e

-- The agent reached the team's limit of missed calls.
abbrev pub reached : Team → Option ℕ → Bool
reached t none = false
reached t (some n) = leb t.max_no_answer n

-- The agent alone is put into the break-out, once, if it reached the limit.
abbrev pub breaks : Team → MissedAgent → Agent → ℤ → ℕ
breaks t m agent id = if reached t m.no_answers then if id ==ℤ agent.id then 1 else 0 else 0

-- What a missed call leaves.
pub record MissedBy (t : Team) (m : MissedAgent) (agent : Agent) (err : Option String) (w u : World)
    : Type 0 where
  pub state : u.attempt.state ≡ hook_missed
  pub broken : (id : ℤ) → break_outs id u.effects ≡ breaks t m agent id + break_outs id w.effects
  pub told :
      last_effect u.effects
      ≡ some (
          Effect.publish w.attempt.channel w.attempt.domain_id w.attempt.member.queue_id
            (user_id agent)
            (ChannelEvent.missed_event m.timestamp (missed_until t m) err))
  pub same_bridge : u.attempt.bridged_at ≡ w.attempt.bridged_at
  pub same_result : u.attempt.member.result ≡ w.attempt.member.result

abbrev pub Returns : (World → Type 0) → Option World → Type 0
Returns P none = ⊥
Returns P (some u) = P u

hook-attempt :
    (now : ℤ) (name : String) (q : BaseQueue) (w : World) → (hook now name q w).attempt ≡ w.attempt
unfolding hook
hook-attempt now name q w = ground arith

hook-break_outs :
    (now : ℤ) (name : String) (q : BaseQueue) (w : World) (id : ℤ)
    → break_outs id (hook now name q w).effects ≡ break_outs id w.effects
unfolding hook
hook-break_outs now name q w id = ground arith

over_limit-reached : (t : Team) (m : MissedAgent) → over_limit t m ≡ reached t m.no_answers
unfolding over_limit
over_limit-reached t m = ground arith

abbrev broken_world : Team → MissedAgent → Agent → World → World
broken_world t m agent w = if over_limit t m then set_agent_max_no_answer agent w else w

broken-break_outs :
    (t : Team) (m : MissedAgent) (agent : Agent) (w : World) (id : ℤ)
    → break_outs id (broken_world t m agent w).effects
      ≡ breaks t m agent id + break_outs id w.effects
unfolding set_agent_max_no_answer
broken-break_outs t m agent w id = ground (arith, over_limit-reached t m)

broken-attempt :
    (t : Team) (m : MissedAgent) (agent : Agent) (w : World)
    → (broken_world t m agent w).attempt ≡ w.attempt
unfolding set_agent_max_no_answer
broken-attempt t m agent w = ground arith

pub then_world-Returns :
    (P Q : World → Type 0) (o : Option World) (f : World → Option World)
    → Returns P o
    → ((u : World) → P u → Returns Q (f u))
    → Returns Q (then_world o f)
then_world-Returns P Q none f r h = r
then_world-Returns P Q (some u) f r h = h u r

-- What the change of the state leaves to the rest.
record Moved (v u : World) : Type 0 where
  moved : u.attempt ≡ record v.attempt { state = hook_missed }
  same_breaks : (id : ℤ) → break_outs id u.effects ≡ break_outs id v.effects

set_state-Moved :
    (now : ℤ) (v : World) → v.attempt.queue ≢ none → Returns (Moved v) (set_state now hook_missed v)
unfolding set_state stamp_state
set_state-Moved now v h = elim (Option-cases v.attempt.queue) [
  | inl e ↦ absurd (h e)
  | inr (q, e) ↦
      let set = put (stamp_state now hook_missed v.attempt) v in
      subst
        (λ o. Returns (Moved v) (elim o as (λ _. Option World) [
          | none ↦ none
          | some q ↦ some (hook now hook_missed q set)
        ]))
        (sym e)
        (record {
          moved = hook-attempt now hook_missed q set;
          same_breaks = λ id. hook-break_outs now hook_missed q set id;
        })
]

-- A call that an agent misses leaves the attempt of a queue in the state "missed". The agent is put
-- into the break-out, once, exactly if the count of missed calls has reached the team's limit, no
-- other agent ever is, and the agent is told last until when it is not called. The result and the time of the bridge stay.
pub missed_agent-MissedBy :
    (now : ℤ) (t : Team) (m : MissedAgent) (agent : Agent) (err : Option String) (w : World)
    → w.attempt.queue ≢ none
    → Returns (MissedBy t m agent err w) (missed_agent now t m agent err w)
unfolding missed_agent to_agent
missed_agent-MissedBy now t m agent err w h =
    let v = broken_world t m agent w in
    let kept = broken-attempt t m agent w in
    then_world-Returns (Moved v) (MissedBy t m agent err w) (set_state now hook_missed v) _
      (set_state-Moved now v (subst (λ a. a.queue ≢ none) (sym kept) h))
      (λ u r. record {
        state = ap (λ a. a.state) r.moved;
        broken = λ id. omega (arith, r.same_breaks id, broken-break_outs t m agent w id);
        told = rw (r.moved, kept) refl;
        same_bridge = ap (λ a. a.bridged_at) r.moved ∙ ap (λ a. a.bridged_at) kept;
        same_result = ap (λ a. a.member.result) r.moved ∙ ap (λ a. a.member.result) kept;
      })

abbrev pub missed_write : Team → World → Effect
missed_write t w = Effect.set_attempt_missed_agent w.attempt.member.id t.no_answer_delay_time

-- The attempt waits again, without the agent.
pub record Freed (t : Team) (m : MissedAgent) (agent : Agent) (w u : World) : Type 0 where
  pub no_agent : u.attempt.agent ≡ none
  pub no_channel : u.attempt.agent_channel ≡ none
  pub state : u.attempt.state ≡ hook_missed
  pub broken : (id : ℤ) → break_outs id u.effects ≡ breaks t m agent id + break_outs id w.effects

-- Where an agent does not answer an attempt that goes on waiting: if the store takes the write, the
-- attempt of a queue loses the agent and its channel, and the agent, and no other, is put into the
-- break-out exactly if it reached the limit; if the store fails, nothing but the write happens, the agent stays.
pub missed_agent_and_waiting_attempt_with_error_lem :
    (s : Services) (now : ℤ) (t : Team) (agent : Agent) (err : Option String) (w : World)
    → w.attempt.queue ≢ none
    → (s.missed (missed_write t w) ≡ none
        → missed_agent_and_waiting_attempt_with_error s now t agent err w
          ≡ some (emit (missed_write t w) w))
      × ((m : MissedAgent)
          → s.missed (missed_write t w) ≡ some m
          → Returns
              (Freed t m agent w)
              (missed_agent_and_waiting_attempt_with_error s now t agent err w))
unfolding missed_agent_and_waiting_attempt_with_error
missed_agent_and_waiting_attempt_with_error_lem s now t agent err w h =
    let told = emit (missed_write t w) w in
    (
      λ e. rw (e, missed_agent_and_waiting_attempt_with_error) refl,
      λ m e.
          rw (e, missed_agent_and_waiting_attempt_with_error)
            (then_world-Returns (MissedBy t m agent err told) (Freed t m agent w)
              (missed_agent now t m agent err told) _
              (missed_agent-MissedBy now t m agent err told h)
              (λ u r. record {
                no_agent = refl;
                no_channel = refl;
                state = r.state;
                broken = λ id. omega (arith, r.broken id);
              })),
    )

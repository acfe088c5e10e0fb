-- ===== src/Queue/Team/Wrap.antt =====
-- `SetWrap` of queue/team.go: the result that is written, and the time after the call.
use call_center.Prelude.{
  ℕ, ◌+◌, ◌*◌, ◌<◌, ◌∙◌, ◌≤◌, ◌^◌, String, Option, none, some, ◌∷◌, Bool, true, false, ◌==s◌,
  ==s_iff, ◌≡◌, ◌↔◌, refl, subst, sym, ap, arith,
}
use call_center.Prelude.Int.{ℤ, pos, int64, int64_id, ◌+ℤ◌}
use call_center.Model.Agent.{Agent}
use call_center.Model.Member.{SchemaResult}
use call_center.AgentManager.Agent.{user_id}
use call_center.Queue.State.{Attempt, BaseQueue, ChannelEvent, Effect, World, emit}
use call_center.Queue.Attempt.{result, set_result, set_member_stop_cause}
use call_center.Queue.Attempt.Schema.{after_distribute_schema}
use call_center.Queue.Attempt.Callback.{Same, after_distribute_schema-Same}
use call_center.Queue.Team.{
  Team, Services, set_wrap, after_write, schema_status, queue_result, schema_variables, outcome,
  hold_sec, wrap_millis, wrap_time, to_agent,
}

-- The result as it is meant: the flow's status comes first; an endless queue makes everything endless
-- but a transfer.
abbrev by_queue : Bool → String → String
by_queue false given = given
by_queue true given = elim (given ==s "transfer") [ true ↦ "transfer" | false ↦ "endless" ]

abbrev decided : Option SchemaResult → BaseQueue → String → String
decided none q given = by_queue q.endless given
decided (some r) q given = elim (r.status ==s "") [
  | true ↦ by_queue q.endless given
  | false ↦ r.status
]

queue_result-by_queue :
    (q : BaseQueue) (given : String) → queue_result q given ≡ by_queue q.endless given
queue_result-by_queue q given = ground (arith, ==s_iff given "transfer")

schema_status-decided :
    (o : Option SchemaResult) (q : BaseQueue) (given : String)
    → schema_status o (queue_result q given) ≡ decided o q given
schema_status-decided none q given = queue_result-by_queue q given
schema_status-decided (some r) q given = ground (arith, queue_result-by_queue q given)

-- The write of the result that ends the attempt.
abbrev write_of : Services → ℤ → Team → Agent → String → World → Effect
write_of s now t agent final w =
    let (u, res) = after_distribute_schema s.flow now w in
    Effect.set_attempt_result u.attempt.member.id
      (outcome (hold_sec t agent) final (schema_variables res) u.attempt)

abbrev pub final_result : Services → ℤ → BaseQueue → String → World → String
final_result s now q given w = decided (after_distribute_schema s.flow now w).1 q given

abbrev pub final_write : Services → ℤ → Team → BaseQueue → Agent → String → World → Effect
final_write s now t q agent given w = write_of s now t agent (final_result s now q given w) w

-- The end with this result.
abbrev wrapped : Services → ℤ → Team → Agent → World → String → World
wrapped s now t agent w final =
    let write = write_of s now t agent final w in
    emit Effect.leaving_member (
      after_write t agent final (s.leaves write)
        (emit write (after_distribute_schema s.flow now w).0))

set_wrap-wrapped :
    (s : Services) (now : ℤ) (t : Team) (q : BaseQueue) (agent : Agent) (given : String) (w : World)
    → set_wrap s now t q agent given w ≡ wrapped s now t agent w (final_result s now q given w)
unfolding set_wrap
set_wrap-wrapped s now t q agent given w =
    ap (wrapped s now t agent w)
      (schema_status-decided (after_distribute_schema s.flow now w).1 q given)

-- The event that tells the agent's client until when it has time.
abbrev pub wrap_event : Team → Agent → ℤ → Attempt → Effect
wrap_event t agent at a =
    Effect.publish a.channel a.domain_id a.member.queue_id (user_id agent) (wrap_time t at)

after_write-some :
    (t : Team) (agent : Agent) (given : String) (at : ℤ) (cause : Option String) (w : World)
    → let u = after_write t agent given (some (at, cause)) w in
      (result u.attempt ≡ given) × (u.effects ≡ wrap_event t agent at w.attempt ∷ w.effects)
unfolding after_write result set_result set_member_stop_cause to_agent
after_write-some t agent given at none w = (refl, refl)
after_write-some t agent given at (some c) w = (refl, refl)

result-Same : (a b : Attempt) → Same a b → result b ≡ result a
unfolding result
result-Same a b k = ground (arith, k.same_result)

-- What the end of an attempt with this result leaves.
abbrev pub Ended : Services → Team → Agent → String → Effect → World → World → World → Type 0
Ended s t agent final write w flowed u =
    (s.leaves write ≡ none
      → (result u.attempt ≡ result w.attempt)
        × (u.effects ≡ Effect.leaving_member ∷ write ∷ flowed.effects))
    × ((at : ℤ) (cause : Option String)
        → s.leaves write ≡ some (at, cause)
        → (result u.attempt ≡ final)
          × (u.effects
              ≡ Effect.leaving_member
                ∷ wrap_event t agent at flowed.attempt
                ∷ write
                ∷ flowed.effects))

wrapped-Ended :
    (s : Services) (now : ℤ) (t : Team) (agent : Agent) (final : String) (w : World)
    → Ended s t agent final
        (write_of s now t agent final w)
        w
        (after_distribute_schema s.flow now w).0
        (wrapped s now t agent w final)
unfolding after_write
wrapped-Ended s now t agent final w =
    let flowed = (after_distribute_schema s.flow now w).0 in
    let write = write_of s now t agent final w in
    (
      λ h.
          subst
            (λ o.
              let v = after_write t agent final o (emit write flowed) in
              (result v.attempt ≡ result w.attempt)
              × (Effect.leaving_member ∷ v.effects
                  ≡ Effect.leaving_member ∷ write ∷ flowed.effects))
            (sym h)
            (
              result-Same w.attempt flowed.attempt (after_distribute_schema-Same s.flow now w),
              refl,
            ),
      λ at cause h.
          subst
            (λ o.
              let v = after_write t agent final o (emit write flowed) in
              (result v.attempt ≡ final)
              × (Effect.leaving_member ∷ v.effects
                  ≡ Effect.leaving_member
                    ∷ wrap_event t agent at flowed.attempt
                    ∷ write
                    ∷ flowed.effects))
            (sym h)
            (
              (after_write-some t agent final at cause (emit write flowed)).0,
              ap (λ es. Effect.leaving_member ∷ es)
                  (after_write-some t agent final at cause (emit write flowed)).1,
            ),
    )

-- The event that the client of the agent has time from one moment until another.
abbrev pub told_until : Agent → Attempt → ℕ → ℕ → Effect
told_until agent a at deadline =
    Effect.publish a.channel a.domain_id a.member.queue_id (user_id agent)
      (ChannelEvent.wrap_time_event (pos at) (pos deadline))

-- `SetWrap` writes the result of the attempt once, after the flow that the queue has for it: what the
-- flow says, or else "endless" for an endless queue, unless it is a transfer, or else what was given.
-- If the store takes it, the attempt has this result and the agent is told of the time after the call;
-- if not, the attempt keeps its result and nobody is told. In both cases the member leaves, last.
pub set_wrap_lem :
    (s : Services) (now : ℤ) (t : Team) (q : BaseQueue) (agent : Agent) (given : String) (w : World)
    → Ended s t agent
        (final_result s now q given w)
        (final_write s now t q agent given w)
        w
        (after_distribute_schema s.flow now w).0
        (set_wrap s now t q agent given w)
set_wrap_lem s now t q agent given w =
    subst
      (λ u.
        Ended s t agent (final_result s now q given w) (final_write s now t q agent given w) w
          (after_distribute_schema s.flow now w).0 u)
      (sym (set_wrap-wrapped s now t q agent given w))
      (wrapped-Ended s now t agent (final_result s now q given w) w)

-- What the deadline is, where it does not leave the range of an int64.
deadline_of : (at m : ℕ) → at + m < 2 ^ 63 → int64 (pos at +ℤ pos m) ≡ pos (at + m)
unfolding ◌+ℤ◌
deadline_of at m h = ground (arith, int64_id (pos (at + m)) h)

wrap_time_of :
    (t : Team) (at : ℕ)
    → at + 65536000 < 2 ^ 63
    → wrap_time t (pos at) ≡ ChannelEvent.wrap_time_event (pos at) (pos (at + wrap_millis t))
unfolding wrap_time
wrap_time_of t at h =
    ap (λ d. ChannelEvent.wrap_time_event (pos at) d) (deadline_of at (wrap_millis t) (omega arith))

wrap_millis-hold_sec :
    (t : Team) (agent : Agent)
    → t.wrap_up_time < 2 ^ 16
    → agent.on_demand ≡ false
    → (wrap_millis t ≡ hold_sec t agent * 1000) ↔ (t.wrap_up_time ≤ 65)
wrap_millis-hold_sec t agent b o = ground arith

-- Where `SetWrap` is taken by the store at a time that is no negative one and more than 65,536,000
-- milliseconds below the end of the range of an int64, the last that is told before the member leaves
-- is one event for the user of the agent, from that time until a deadline. The deadline is as many
-- seconds later as the store was told to hold the agent exactly if the team's time is at most 65
-- seconds: the product in milliseconds is of 16 bits. The agent is not on demand, and the setting of
-- the team is of 16 bits.
pub set_wrap-deadline :
    (s : Services) (now : ℤ) (t : Team) (q : BaseQueue) (agent : Agent) (given : String) (w : World)
    (at : ℕ) (cause : Option String)
    → t.wrap_up_time < 2 ^ 16
    → agent.on_demand ≡ false
    → at + 65536000 < 2 ^ 63
    → s.leaves (final_write s now t q agent given w) ≡ some (pos at, cause)
    → let flowed = (after_distribute_schema s.flow now w).0 in
      (deadline : ℕ) × ((set_wrap s now t q agent given w).effects
        ≡ Effect.leaving_member
          ∷ told_until agent flowed.attempt at deadline
          ∷ final_write s now t q agent given w
          ∷ flowed.effects)
      × ((deadline ≡ at + hold_sec t agent * 1000) ↔ (t.wrap_up_time ≤ 65))
set_wrap-deadline s now t q agent given w at cause b o r h =
    let flowed = (after_distribute_schema s.flow now w).0 in
    let ends = ((set_wrap_lem s now t q agent given w).1 (pos at) cause h).1 in
    let exact = wrap_millis-hold_sec t agent b o in
    (
      at + wrap_millis t,
      ends
          ∙ ap
              (λ e.
                Effect.leaving_member
                ∷ Effect.publish flowed.attempt.channel flowed.attempt.domain_id
                    flowed.attempt.member.queue_id (user_id agent) e
                ∷ final_write s now t q agent given w
                ∷ flowed.effects)
              (wrap_time_of t at r),
      (λ e. exact.0 (omega (arith, e)), λ k. omega (arith, exact.1 k)),
    )

-- ===== src/Queue/Team/Reporting.antt =====
-- `Reporting` of queue/team.go: the result of an attempt whose agent has a form.
use call_center.Prelude.{
  String, Option, none, some, Bool, true, false, ◌&&◌, ◌≡◌, ◌≢◌, refl, inl, inr, Option-cases,
  Bool-cases, subst, sym, arith, if◌then◌else◌, ◌==s◌,
}
use call_center.Prelude.Int.{ℤ}
use call_center.Model.Agent.{Agent}
use call_center.Queue.State.{Attempt, BaseQueue, Effect, World, emit, put}
use call_center.Queue.Attempt.{result, set_result}
use call_center.Queue.Attempt.Schema.{set_state, hook, stamp_state, attempt_result_success}
use call_center.Queue.Team.{
  Team, Services, to_agent, member_state_processing, attempt_result_post_processing,
}
use call_center.Queue.Team.Handlers.{
  reporting, end_reporting, start_processing, result_or, processing_event,
}
use call_center.Queue.Team.Missed.{Returns, then_world-Returns}

-- The agent has sent its report, and there is no draft of one.
abbrev pub has_reported : Bool → Attempt → Bool
has_reported reported a = reported && elim a.draft [ none ↦ true | some d ↦ false ]

abbrev pub reporting_write : BaseQueue → World → Effect
reporting_write q w = Effect.set_attempt_reporting w.attempt.member.id q.processing_sec

-- How the result and the state of the attempt are after the report.
pub record Reported (s : Services) (q : BaseQueue) (reported : Bool) (w u : World) : Type 0 where
  pub has_result : (result u.attempt ==s "") ≡ false
  pub kept : (result w.attempt ==s "") ≡ false → result u.attempt ≡ result w.attempt
  pub given :
      (result w.attempt ==s "") ≡ true
      → result u.attempt ≡ (
          if has_reported reported w.attempt
          then attempt_result_success
          else attempt_result_post_processing)
  pub waits :
      has_reported reported w.attempt ≡ false
      → s.stamped (reporting_write q w) ≢ none
      → u.attempt.state ≡ member_state_processing
  pub done_state : has_reported reported w.attempt ≡ true → u.attempt.state ≡ w.attempt.state

set_state-result :
    (now : ℤ) (v : World)
    → v.attempt.queue ≢ none
    → Returns
        (λ u. (result u.attempt ≡ result v.attempt) × (u.attempt.state ≡ member_state_processing))
        (set_state now member_state_processing v)
unfolding set_state stamp_state hook result
set_state-result now v h = ground arith

reporting-branches :
    (s : Services) (waits : Bool) (now : ℤ) (t : Team) (q : BaseQueue) (agent : Agent)
    (reported : Bool) (w : World)
    → w.attempt.result ≡ none
    → q.processing ≡ true
    → w.attempt.process_transfer ≡ false
    → reporting s waits now t q agent reported w ≡ (
        if has_reported reported w.attempt
        then some (put (set_result (result_or attempt_result_success w.attempt) w.attempt) w)
        else start_processing s now q agent w)
unfolding reporting end_reporting
reporting-branches s waits now t q agent reported w c p x = ground arith

result-set_result : (r : String) (a : Attempt) → result (set_result r a) ≡ r
unfolding result set_result
result-set_result r a = refl

-- The attempt when the form is about to start.
abbrev told : BaseQueue → World → World
told q w =
    emit (reporting_write q w)
      (put (set_result (result_or attempt_result_post_processing w.attempt) w.attempt) w)

-- The form is started.
record Started (s : Services) (q : BaseQueue) (w u : World) : Type 0 where
  named : result u.attempt ≡ result_or attempt_result_post_processing w.attempt
  moves : s.stamped (reporting_write q w) ≢ none → u.attempt.state ≡ member_state_processing

start_processing-Started :
    (s : Services) (now : ℤ) (q : BaseQueue) (agent : Agent) (w : World)
    → w.attempt.queue ≢ none
    → Returns (Started s q w) (start_processing s now q agent w)
unfolding start_processing to_agent set_result result
start_processing-Started s now q agent w h = elim (Option-cases (s.stamped (reporting_write q w))) [
  | inl e ↦ rw (e, start_processing) (record { named = refl; moves = λ f. absurd (f e) })
  | inr (at, e) ↦
      rw (e, start_processing)
        (then_world-Returns _ (Started s q w) (set_state now member_state_processing (told q w))
          (λ x. some (to_agent agent (processing_event q at) x)) (set_state-result now (told q w) h)
          (λ u r. record { named = r.0; moves = λ f. r.1 }))
]

result_or-filled : (r : String) (a : Attempt) → (r ==s "") ≡ false → (result_or r a ==s "") ≡ false
result_or-filled r a h = elim (Bool-cases (result a ==s "")) [
  | inl e ↦ subst (λ x. ((if x then r else result a) ==s "") ≡ false) (sym e) h
  | inr e ↦ subst (λ x. ((if x then r else result a) ==s "") ≡ false) (sym e) e
]

Started-Reported :
    (s : Services) (q : BaseQueue) (reported : Bool) (w u : World)
    → has_reported reported w.attempt ≡ false
    → Started s q w u
    → Reported s q reported w u
Started-Reported s q reported w u b r = record {
  has_result =
      subst (λ x. (x ==s "") ≡ false) (sym r.named)
        (result_or-filled attempt_result_post_processing w.attempt refl);
  kept = λ g. ground (arith, r.named);
  given = λ g. ground (arith, r.named);
  waits = λ g f. r.moves f;
  done_state = λ g. ground arith;
}

by_form-Reported :
    (s : Services) (q : BaseQueue) (reported : Bool) (w : World)
    → has_reported reported w.attempt ≡ true
    → Reported s q reported w
        (put (set_result (result_or attempt_result_success w.attempt) w.attempt) w)
unfolding set_result
by_form-Reported s q reported w b =
    let n = result-set_result (result_or attempt_result_success w.attempt) w.attempt in
    record {
      has_result =
          subst (λ x. (x ==s "") ≡ false) (sym n)
            (result_or-filled attempt_result_success w.attempt refl);
      kept = λ g. ground (arith, n);
      given = λ g. ground (arith, n);
      waits = λ g f. ground arith;
      done_state = λ g. refl;
    }

Returns-mono :
    (P Q : World → Type 0) (o : Option World)
    → ((u : World) → P u → Q u)
    → Returns P o
    → Returns Q o
Returns-mono P Q none f r = r
Returns-mono P Q (some u) f r = f u r

-- After `Reporting` of an attempt in a queue with forms, that holds no callback and is no transfer,
-- the attempt has a result: the one that it had, or else a success if the agent has sent its report
-- and left no draft, and "processing" if not. In the first case the state stays, in the second it is
-- "processing" if the store takes the write.
pub reporting_lem :
    (s : Services) (waits : Bool) (now : ℤ) (t : Team) (q : BaseQueue) (agent : Agent)
    (reported : Bool) (w : World)
    → w.attempt.queue ≢ none
    → w.attempt.result ≡ none
    → q.processing ≡ true
    → w.attempt.process_transfer ≡ false
    → Returns (Reported s q reported w) (reporting s waits now t q agent reported w)
reporting_lem s waits now t q agent reported w h c p x =
    let by_form =
      some (put (set_result (result_or attempt_result_success w.attempt) w.attempt) w) in
    let form = start_processing s now q agent w in
    rw (reporting-branches s waits now t q agent reported w c p x)
      (elim (Bool-cases (has_reported reported w.attempt)) [
        | inl b ↦
            subst (λ x. Returns (Reported s q reported w) (if x then by_form else form)) (sym b)
              (by_form-Reported s q reported w b)
        | inr b ↦
            subst (λ x. Returns (Reported s q reported w) (if x then by_form else form)) (sym b)
              (Returns-mono (Started s q w) (Reported s q reported w) form
                (λ u. Started-Reported s q reported w u b)
                (start_processing-Started s now q agent w h))
      ])

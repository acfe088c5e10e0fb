-- ===== src/Queue/Attempt/Cancel.antt =====
-- The methods of queue/attempt.go that set what an attempt has come to, in any order.
use call_center.Prelude.{
  String, Option, none, some, List, [], ◌∷◌, true, false, ◌≡◌, ◌≢◌, refl, inl, inr, Option-cases,
  subst, sym, ◌∙◌, arith, ==s_iff,
}
use call_center.Prelude.Int.{ℤ, pos, ◌==ℤ◌}
use call_center.Model.Agent.{Agent}
use call_center.Model.Member.{AttemptCallback}
use call_center.Queue.State.{Attempt, BaseQueue, World, put}
use call_center.Queue.Attempt.{
  set_cancel, mark_transferred, set_callback, distribute_agent, member_state_bridged,
}
use call_center.Queue.Attempt.Schema.{set_state, stamp_state, hook}

-- The calls that others make on an attempt that a queue has taken.
pub data Call : Type 0 where
  cancels : Call
  transfers : ℤ → Call
  calls_back : AttemptCallback → Call
  moves : ℤ → String → Call
  distributes : Agent → Call

abbrev on_attempt : Option Attempt → World → Option World
on_attempt none w = none
on_attempt (some a) w = some (record w { attempt = a })

unfoldable pub call : Call → World → Option World
unfolding set_cancel mark_transferred set_callback set_state distribute_agent
call cancels w = on_attempt (set_cancel w.attempt) w
call (transfers now) w = some (record w { attempt = mark_transferred now w.attempt })
call (calls_back cb) w = some (record w { attempt = set_callback cb w.attempt })
call (moves now state) w = set_state now state w
call (distributes g) w = some (distribute_agent g w)

unfoldable pub run : List Call → World → Option World
unfolding call
run [] w = some w
run (c ∷ cs) w = elim (call c w) [ none ↦ none | some u ↦ run cs u ]

-- The channel of the cancel is closed exactly if the attempt is cancelled, and the attempt is of a queue.
pub record IsSound (a : Attempt) : Type 0 where
  pub closed_iff : a.cancel_closed ≡ a.canceled
  pub queued : a.queue ≢ none

-- What stays once it is there: the cancel, the time of the bridge and that of the transfer.
pub record Keeps (a b : Attempt) : Type 0 where
  pub same_cancel : a.canceled ≡ true → b.canceled ≡ true
  pub same_bridge : (a.bridged_at ==ℤ pos 0) ≡ false → b.bridged_at ≡ a.bridged_at
  pub same_transfer : (a.transferred_at ==ℤ pos 0) ≡ false → b.transferred_at ≡ a.transferred_at
  pub same_member : b.member.id ≡ a.member.id

abbrev pub Returns : (World → Type 0) → Option World → Type 0
Returns P none = ⊥
Returns P (some u) = P u

abbrev pub Kept : World → World → Type 0
Kept w u = IsSound u.attempt × Keeps w.attempt u.attempt

hook-attempt :
    (now : ℤ) (name : String) (q : BaseQueue) (w : World) → (hook now name q w).attempt ≡ w.attempt
unfolding hook
hook-attempt now name q w = ground arith

-- With a queue, `SetState` returns, and only stamps the attempt.
set_state-attempt :
    (now : ℤ) (state : String) (w : World)
    → w.attempt.queue ≢ none
    → Returns (λ u. u.attempt ≡ stamp_state now state w.attempt) (set_state now state w)
unfolding set_state
set_state-attempt now state w h = elim (Option-cases w.attempt.queue) [
  | inl e ↦ absurd (h e)
  | inr (q, e) ↦ ground (arith, hook-attempt now state q (put (stamp_state now state w.attempt) w))
]

stamp_state-Keeps : (now : ℤ) (state : String) (a : Attempt) → Keeps a (stamp_state now state a)
unfolding stamp_state
stamp_state-Keeps now state a = ground (arith, ==s_iff state member_state_bridged)

stamp_state-IsSound :
    (now : ℤ) (state : String) (a : Attempt) → IsSound a → IsSound (stamp_state now state a)
unfolding stamp_state
stamp_state-IsSound now state a s = ground (arith, ==s_iff state member_state_bridged)

Returns-mono :
    (P Q : World → Type 0) (o : Option World)
    → ((u : World) → P u → Q u)
    → Returns P o
    → Returns Q o
Returns-mono P Q none f r = r
Returns-mono P Q (some u) f r = f u r

call-Kept : (c : Call) (w : World) → IsSound w.attempt → Returns (Kept w) (call c w)
unfolding call
call-Kept cancels w s = ground arith
call-Kept (transfers now) w s = ground arith
call-Kept (calls_back cb) w s = ground (arith, ==s_iff cb.status "")
call-Kept (moves now state) w s =
    Returns-mono _ (Kept w) (set_state now state w)
      (λ u e.
        subst (λ a. IsSound a × Keeps w.attempt a) (sym e)
          (stamp_state-IsSound now state w.attempt s, stamp_state-Keeps now state w.attempt))
      (set_state-attempt now state w s.queued)
call-Kept (distributes g) w s = ground arith

Keeps-trans : (a b c : Attempt) → Keeps a b → Keeps b c → Keeps a c
Keeps-trans a b c k l = record {
  same_cancel = λ h. l.same_cancel (k.same_cancel h);
  same_bridge = λ h. ground (arith, k.same_bridge h, l.same_bridge);
  same_transfer = λ h. ground (arith, k.same_transfer h, l.same_transfer);
  same_member = l.same_member ∙ k.same_member;
}

run_after :
    (f : World → Option World) (w : World) (o : Option World)
    → ((u : World) → IsSound u.attempt → Returns (Kept u) (f u))
    → Returns (Kept w) o
    → Returns (Kept w) (elim o [ none ↦ none | some u ↦ f u ])
run_after f w none h r = r
run_after f w (some u) h (s, k) =
    Returns-mono (Kept u) (Kept w) (f u)
      (λ v (t, l). (t, Keeps-trans w.attempt u.attempt v.attempt k l)) (h u s)

-- No sequence of cancels, transfers, callbacks, changes of the state and offers of an agent panics on
-- an attempt of a queue: the channel of the cancel is closed at most once, just where the attempt is
-- cancelled. A cancel, the time of the first bridge and that of the first transfer stay.
pub run-Kept : (cs : List Call) (w : World) → IsSound w.attempt → Returns (Kept w) (run cs w)
unfolding run
run-Kept [] w s = (
  s,
  record {
    same_cancel = λ h. h;
    same_bridge = λ h. refl;
    same_transfer = λ h. refl;
    same_member = refl;
  },
)
run-Kept (c ∷ cs) w s = run_after (run cs) w (call c w) (λ u t. run-Kept cs u t) (call-Kept c w s)

-- ===== src/Queue/Task/Laws.antt =====
-- What the channel of a task keeps, and when a call on it waits.
use call_center.Prelude.{
  ℕ, ◌+◌, ◌<◌, ◌≡◌, refl, List, [], ◌∷◌, true, false, length, subst, length-append, if◌then◌else◌,
  arith, String,
}
use call_center.Prelude.Int.{ℤ, pos, ◌==ℤ◌}
use call_center.Queue.Task.{
  TaskChannel, TaskState, Action, Outcome, ends, call_waits, receive_waits, answers, closes,
  reports, receives, act, after, run, new_task_channel,
}

-- What is left, also while a call or a receive waits.
abbrev pub left : Outcome → TaskChannel
left (ends u) = u
left (call_waits u) = u
left (receive_waits u) = u

-- No call waits for a receiver.
abbrev pub NoCallWaits : Outcome → Type 0
NoCallWaits (ends u) = Unit
NoCallWaits (call_waits u) = ⊥
NoCallWaits (receive_waits u) = Unit

-- The times of the answer and of the end, once there, and the identity stay.
pub record Keeps (t u : TaskChannel) : Type 0 where
  pub same_id : u.id ≡ t.id
  pub same_answer : (t.bridged_at ==ℤ pos 0) ≡ false → u.bridged_at ≡ t.bridged_at
  pub same_end : (t.closed_at ==ℤ pos 0) ≡ false → u.closed_at ≡ t.closed_at

act-Keeps : (a : Action) (t : TaskChannel) → Keeps t (left (act a t))
unfolding act
act-Keeps (answers now) t = record {
  same_id = ground arith;
  same_answer = ground arith;
  same_end = ground arith;
}
act-Keeps (closes now) t = record {
  same_id = ground arith;
  same_answer = ground arith;
  same_end = ground arith;
}
act-Keeps (reports now later) t = record {
  same_id = ground arith;
  same_answer = ground arith;
  same_end = ground arith;
}
act-Keeps receives t = record {
  same_id = ground arith;
  same_answer = ground arith;
  same_end = ground arith;
}

Keeps-trans : (t u v : TaskChannel) → Keeps t u → Keeps u v → Keeps t v
Keeps-trans t u v a b = record {
  same_id = ground (arith, a.same_id, b.same_id);
  same_answer = λ h. ground (arith, a.same_answer h, b.same_answer);
  same_end = λ h. ground (arith, a.same_end h, b.same_end);
}

after-Keeps :
    (t : TaskChannel) (s : Outcome) (f : TaskChannel → Outcome)
    → Keeps t (left s)
    → ((u : TaskChannel) → Keeps u (left (f u)))
    → Keeps t (left (after s f))
after-Keeps t (ends u) f k h = Keeps-trans t u (left (f u)) k (h u)
after-Keeps t (call_waits u) f k h = k
after-Keeps t (receive_waits u) f k h = k

-- The times of the answer and of the end of a task, once set, are never changed by any sequence of
-- calls and receives, whether it ends or waits.
pub run-Keeps : (calls : List Action) (t : TaskChannel) → Keeps t (left (run calls t))
unfolding run
run-Keeps [] t = record { same_id = refl; same_answer = λ h. refl; same_end = λ h. refl }
run-Keeps (a ∷ rest) t = after-Keeps t (act a t) (run rest) (act-Keeps a t) (λ u. run-Keeps rest u)

-- The times that a call stamps are not 0.
abbrev pub Stamped : Action → Type 0
Stamped (answers now) = (now ==ℤ pos 0) ≡ false
Stamped (closes now) = (now ==ℤ pos 0) ≡ false
Stamped (reports now later) = (later ==ℤ pos 0) ≡ false
Stamped receives = Unit

abbrev pub AllStamped : List Action → Type 0
AllStamped [] = Unit
AllStamped (a ∷ rest) = Stamped a × AllStamped rest

-- How many of the two states have been sent.
abbrev one_if_set : ℤ → ℕ
one_if_set at = if at ==ℤ pos 0 then 0 else 1

abbrev sent : TaskChannel → ℕ
sent t = one_if_set t.bridged_at + one_if_set t.closed_at

-- One of the states that were sent has been received.
abbrev IsServed : TaskChannel → Type 0
IsServed t = length t.state_c < sent t

abbrev OnEnd : (TaskChannel → Type 0) → Outcome → Type 0
OnEnd P (ends u) = P u
OnEnd P (call_waits u) = ⊥
OnEnd P (receive_waits u) = Unit

act-IsServed : (a : Action) (t : TaskChannel) → Stamped a → IsServed t → OnEnd IsServed (act a t)
unfolding act
act-IsServed (answers now) t n s = ground (arith, length-append t.state_c (TaskState.bridged ∷ []))
act-IsServed (closes now) t n s = ground (arith, length-append t.state_c (TaskState.closed ∷ []))
act-IsServed (reports now later) t n s =
    ground (arith, length-append t.state_c (TaskState.closed ∷ []))
act-IsServed receives t n s = ground arith

after-served :
    (s : Outcome) (f : TaskChannel → Outcome)
    → OnEnd IsServed s
    → ((u : TaskChannel) → IsServed u → NoCallWaits (f u))
    → NoCallWaits (after s f)
after-served (ends u) f k h = h u k
after-served (call_waits u) f k h = k
after-served (receive_waits u) f k h = tt

run-served :
    (calls : List Action) (t : TaskChannel)
    → AllStamped calls
    → IsServed t
    → NoCallWaits (run calls t)
unfolding run
run-served [] t n s = tt
run-served (a ∷ rest) t n s =
    after-served (act a t) (run rest) (act-IsServed a t n.0 s) (λ u. run-served rest u n.1)

-- On a new channel whose loop receives the answer, no sequence of further calls and receives comes to a
-- call that waits for a receiver: it ends, or a receive waits, as it does while there is nothing to
-- receive. No call reads the clock at 0.
pub run-new_task_channel :
    (created now : ℤ) (id : String) (calls : List Action)
    → (now ==ℤ pos 0) ≡ false
    → AllStamped calls
    → NoCallWaits (run (answers now ∷ receives ∷ calls) (new_task_channel created id))
unfolding run act new_task_channel
run-new_task_channel created now id calls n s = run-served calls _ s (ground arith)

-- Nothing that was sent has been received.
abbrev IsUnserved : TaskChannel → Type 0
IsUnserved t = length t.state_c ≡ sent t

-- Every action is a call.
abbrev pub NoReceive : Action → Type 0
NoReceive receives = ⊥
NoReceive _ = Unit

abbrev pub AllCalls : List Action → Type 0
AllCalls [] = Unit
AllCalls (a ∷ rest) = NoReceive a × AllCalls rest

abbrev OnlyEnd : (TaskChannel → Type 0) → Outcome → Type 0
OnlyEnd P (ends u) = P u
OnlyEnd P (call_waits u) = Unit
OnlyEnd P (receive_waits u) = Unit

act-IsUnserved :
    (a : Action) (t : TaskChannel)
    → Stamped a
    → NoReceive a
    → IsUnserved t
    → OnlyEnd IsUnserved (act a t)
unfolding act
act-IsUnserved (answers now) t n c s =
    ground (arith, length-append t.state_c (TaskState.bridged ∷ []))
act-IsUnserved (closes now) t n c s =
    ground (arith, length-append t.state_c (TaskState.closed ∷ []))
act-IsUnserved (reports now later) t n c s =
    ground (arith, length-append t.state_c (TaskState.closed ∷ []))
act-IsUnserved receives t n c s = absurd c

after-IsUnserved :
    (o : Outcome) (f : TaskChannel → Outcome)
    → OnlyEnd IsUnserved o
    → ((u : TaskChannel) → IsUnserved u → OnlyEnd IsUnserved (f u))
    → OnlyEnd IsUnserved (after o f)
after-IsUnserved (ends u) f k h = h u k
after-IsUnserved (call_waits u) f k h = tt
after-IsUnserved (receive_waits u) f k h = tt

run-IsUnserved :
    (calls : List Action) (t : TaskChannel)
    → AllStamped calls
    → AllCalls calls
    → IsUnserved t
    → OnlyEnd IsUnserved (run calls t)
unfolding run
run-IsUnserved [] t n c s = s
run-IsUnserved (a ∷ rest) t n c s =
    after-IsUnserved (act a t) (run rest) (act-IsUnserved a t n.0 c.0 s)
      (λ u k. run-IsUnserved rest u n.1 c.1 k)

-- The end of a task that waits, with its time already set.
abbrev pub WaitsClosed : ℤ → Outcome → Type 0
WaitsClosed later (ends u) = ⊥
WaitsClosed later (call_waits u) = u.closed_at ≡ later
WaitsClosed later (receive_waits u) = ⊥

-- Where the loop has received nothing from a new channel, whatever calls were made, as long as they all
-- returned and none read the clock at 0, the end of a task that was answered and not closed
-- waits for a receiver, with the time of the end already set.
pub run-unserved :
    (created later : ℤ) (id : String) (calls : List Action) (t : TaskChannel)
    → AllStamped calls
    → AllCalls calls
    → run calls (new_task_channel created id) ≡ ends t
    → (t.bridged_at ==ℤ pos 0) ≡ false
    → (t.closed_at ==ℤ pos 0) ≡ true
    → WaitsClosed later (act (closes later) t)
unfolding act new_task_channel
run-unserved created later id calls t n c r b k =
    let s =
      subst (OnlyEnd IsUnserved) r (run-IsUnserved calls (new_task_channel created id) n c refl) in
    ground (arith, s)

-- ===== src/Queue/Manager/Ending.antt =====
-- queue/queue_manager.go: the ways in which an attempt comes to its result, and leaves.
use call_center.Prelude.{
  ℕ, String, Option, none, some, List, [], ◌∷◌, Bool, true, false, ◌==s◌, if◌then◌else◌, nat_key,
}
use call_center.Prelude.Int.{ℤ, pos, ltb_ℤ}
use call_center.Prelude.StringMap.{lookup}
use call_center.Model.Maps.{StringMap}
use call_center.Model.Member.{AttemptCallback, SchemaResult}
use call_center.Queue.State.{Attempt, BaseQueue}
use call_center.Queue.Attempt.{
  result, set_result, set_member_stop_cause, drop_draft_result, set_cancel,
}
use call_center.Queue.Attempt.Schema.{after_distribute_schema}
use call_center.Queue.Manager.{
  Cell, Request, Store, Manager, send, and_then, put_cell, set_attempt, after_method, get_attempt,
  leaving_cell, leave_with,
}

abbrev stop_by : Option String → Attempt → Attempt
stop_by none a = a
stop_by (some cause) a = set_member_stop_cause (some cause) a

abbrev result_or : Option String → String → String
result_or none d = d
result_or (some r) d = r

abbrev stop_by_answer : Option (Option String × Option String) → Attempt → Attempt
stop_by_answer none a = a
stop_by_answer (some (cause, res)) a = stop_by cause a

-- The answer to the write of `Abandoned`; its result is not read.
unfoldable pub take_abandoned : Option (Option String × Option String) → Attempt → Attempt
unfolding result set_result set_member_stop_cause
take_abandoned answer a =
    let stopped = stop_by_answer answer a in
    if result stopped ==s "" then set_result "abandoned" stopped else stopped

unfoldable pub abandon_cell : Store → ℤ → ℕ → Cell → Manager → Option Manager
unfolding take_abandoned leave_with
abandon_cell st now p c s =
    let write = Request.abandoned c.attempt.member.id 0 0 none c.attempt in
    let taken = set_attempt (take_abandoned (st.leaves write) c.attempt) c in
    leave_with now p taken write s

-- `Abandoned`
unfoldable pub abandoned : Store → ℤ → ℕ → Manager → Option Manager
unfolding lookup abandon_cell
abandoned st now p s = elim (lookup p s.heap) [ none ↦ none | some c ↦ abandon_cell st now p c s ]

-- `SetAttemptSuccess`
unfoldable pub set_attempt_success : Store → Option StringMap → ℕ → Cell → Manager → Manager
unfolding set_result set_member_stop_cause put_cell
set_attempt_success st vars p c s =
    let write = Request.succeeded c.attempt.member.id vars c.attempt in
    elim (st.leaves write) [
      | none ↦ send write s
      | some (cause, res) ↦
          put_cell p (set_attempt (set_result "success" (stop_by cause c.attempt)) c) (send write s)
    ]

-- `SetAttemptAbandonedWithParams`
unfoldable pub set_attempt_abandoned_with_params :
    Store → ℕ → ℕ → Option StringMap → ℕ → Cell → Manager → Manager
unfolding set_result set_member_stop_cause put_cell
set_attempt_abandoned_with_params st max sleep vars p c s =
    let write = Request.abandoned c.attempt.member.id max sleep vars c.attempt in
    elim (st.leaves write) [
      | none ↦ send write s
      | some (cause, res) ↦
          put_cell p
            (set_attempt (set_result (result_or res "abandoned") (stop_by cause c.attempt)) c)
            (send write s)
    ]

-- What a cancel leaves; none is the close of a closed channel.
unfoldable pub put_if : ℕ → Cell → Option Attempt → Manager → Option Manager
unfolding put_cell
put_if p c none s = none
put_if p c (some a) s = some (put_cell p (set_attempt a c) s)

-- `SetAttemptCancel`: a result, and the cancel.
unfoldable pub cancel_cell : String → ℕ → Cell → Manager → Option Manager
unfolding set_result set_cancel put_if
cancel_cell res p c s = put_if p c (set_cancel (set_result res c.attempt)) s

unfoldable pub set_attempt_cancel : ℤ → ℤ → String → Manager → Option (Manager × Bool)
unfolding get_attempt lookup cancel_cell
set_attempt_cancel now id res s =
    let (read, hit) = get_attempt now id s in
    elim hit [
      | none ↦ some (read, false)
      | some p ↦ elim (lookup p read.heap) [
        | none ↦ none
        | some c ↦ and_then (cancel_cell res p c read) (λ u. some (u, true))
      ]
    ]

-- `CancelAgentDistribute`, over the attempts that the store names.
unfoldable pub cancel_if_live : ℕ → Manager → Option Manager
unfolding lookup set_cancel put_if
cancel_if_live p s = elim (lookup p s.heap) [
  | none ↦ none
  | some c ↦ if c.attempt.canceled then some s else put_if p c (set_cancel c.attempt) s
]

unfoldable pub cancel_agent_distribute : ℤ → List ℤ → Manager → Option Manager
unfolding get_attempt cancel_if_live
cancel_agent_distribute now [] s = some s
cancel_agent_distribute now (id ∷ ids) s =
    let (read, hit) = get_attempt now id s in
    elim hit [
      | none ↦ cancel_agent_distribute now ids read
      | some p ↦ and_then (cancel_if_live p read) (λ u. cancel_agent_distribute now ids u)
    ]

-- `TransferTo`; the store's error is only logged.
unfoldable pub transfer_to : ℤ → ℤ → ℕ → Cell → Manager → Option Manager
unfolding set_result leave_with
transfer_to now to_attempt_id p c s =
    leave_with now p (set_attempt (set_result "abandoned" c.attempt) c)
      (Request.transferred_to c.attempt.member.id to_attempt_id) s

-- `TimeoutLeavingMember`: the callback that is written.
unfoldable pub timeout_callback : BaseQueue → AttemptCallback
timeout_callback q = record {
  status = if q.is_prolongation_timeout_retry then "timeout" else "canceled_by_timeout";
  next_call_at = none;
  expire_at = none;
  description = "";
  display = false;
  variables = [];
  sticky_agent_id = none;
  exclude_current_communication = none;
  redial = none;
  add_communications = [];
  wait_between_retries = none;
  only_current_communication = none;
}

abbrev map_of : Option StringMap → StringMap
map_of none = []
map_of (some m) = m

unfoldable pub schema_callback : BaseQueue → SchemaResult → AttemptCallback
unfolding timeout_callback
schema_callback q r = record (timeout_callback q) {
  status = r.status;
  description = r.description;
  display = r.display;
  variables = map_of r.variables;
  sticky_agent_id = if ltb_ℤ (pos 0) r.agent_id then some r.agent_id else none;
}

-- The write, where there is no draft; an error keeps the attempt in the table.
unfoldable pub write_timeout : Store → ℤ → ℕ → Cell → AttemptCallback → Manager → Option Manager
unfolding set_result set_member_stop_cause leave_with leaving_cell
write_timeout st now p c cb s = elim c.attempt.draft [
  | some d ↦ leaving_cell now p c s
  | none ↦
      let a = c.attempt in
      let write =
        Request.schema_written a.member.id cb a.max_attempts a.wait_between a.per_numbers in
      elim (st.leaves write) [
        | none ↦ some (send write s)
        | some (cause, res) ↦
            let set = set_attempt (set_result (result_or res "abandoned") (stop_by cause a)) c in
            leave_with now p set write s
      ]
]

unfoldable pub timeout_cell : Store → ℤ → ℕ → Cell → Manager → Option Manager
unfolding after_distribute_schema schema_callback timeout_callback write_timeout after_method
    drop_draft_result
timeout_cell st now p c s = elim c.attempt.queue [
  | none ↦ some s
  | some q ↦
      let (w, res) =
        after_distribute_schema st.flow now (record { attempt = c.attempt; effects = [] }) in
      elim res [
        | none ↦
            write_timeout st now p (set_attempt w.attempt c) (timeout_callback q)
              (after_method p c w s)
        | some r ↦
            let dropped = record w { attempt = drop_draft_result w.attempt } in
            write_timeout st now p (set_attempt dropped.attempt c) (schema_callback q r)
              (after_method p c dropped s)
      ]
]

unfoldable pub timeout_leaving_member : Store → ℤ → ℕ → Manager → Option Manager
unfolding lookup timeout_cell
timeout_leaving_member st now p s = elim (lookup p s.heap) [
  | none ↦ none
  | some c ↦ timeout_cell st now p c s
]

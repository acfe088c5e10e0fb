-- ===== src/Queue/Manager.antt =====
-- queue/queue_manager.go: the table of the attempts, and how an attempt enters and leaves it. An
-- attempt is shared by pointer: the table, a cache of Lru, holds addresses, the heap the attempts. The
-- store answers what `Store` says; none as a
-- manager is a method that does not return: a runtime panic, or a send that nobody receives.
pub mod Ending
pub mod Distribute
pub mod Reporting
pub mod Report
pub mod Books
pub mod Leaves
pub mod Once
pub mod Runs
pub mod Written
pub mod Reported
pub mod Distributed
mod Tests
use call_center.Prelude.{
  ℕ, ◌+◌, ◌-◌, String, Option, none, some, List, [], ◌∷◌, ◌++◌, Bool, false, ◌==◌, ◌==s◌, ◌&&◌,
  if◌then◌else◌, nat_key,
}
use call_center.Prelude.Int.{ℤ, pos, ◌==ℤ◌, int_key}
use call_center.Prelude.StringMap.{lookup, insert}
use call_center.Model.Maps.{StringMap}
use call_center.Model.Member.{MemberAttempt, MemberCommunication, AttemptCallback}
use call_center.Model.Agent.{Agent}
use call_center.Lru.{Cache, new_lru_with_params, get, add_with_default_expires, remove}
use call_center.Queue.State.{BaseQueue, Attempt, Effect, World}
use call_center.Queue.Task.{TaskChannel}
use call_center.Queue.Attempt.{
  new_attempt, result, set_result, set_agent, is_processing_autosave_enabled,
}
use call_center.Queue.Attempt.Variables.{processing_fields}
use call_center.Queue.Attempt.Schema.{FlowResult, set_state}

-- `channelData` of an attempt.
pub data ChannelData : Type 0 where
  no_data other_data : ChannelData
  task_data : TaskChannel → ChannelData

-- An attempt, and the fields of `Attempt` that only the manager reads: `form_open` tells that the
-- form of the processing is there.
pub record Cell : Type 0 where
  pub attempt : Attempt
  pub manual_distribution : Bool
  pub channel_data : ChannelData
  pub form_open : Bool

-- What the manager itself sends: to the store, to the application and to the form.
pub data Request : Type 0 where
  intercepted : ℤ → ℤ → String → ℤ → Request
  form_fields : ℤ → StringMap → Request
  schema_written : ℤ → AttemptCallback → ℕ → ℕ → Bool → Request
  abandoned : ℤ → ℕ → ℕ → Option StringMap → Attempt → Request
  succeeded : ℤ → Option StringMap → Attempt → Request
  barred : ℤ → Bool → Request
  form_closed : ℤ → Request
  form_updated : ℤ → StringMap → Request
  callback_written : ℤ → AttemptCallback → ℕ → ℕ → Bool → Request
  distribute_cancelled : ℤ → Request
  transferred_to : ℤ → ℤ → Request
  call_variables : String → StringMap → Request
  call_hangup : String → StringMap → Request
  chat_reported : String → Bool → Request
  wrap_event : String → ℤ → ℤ → ℤ → ℤ → ℤ → ℤ → Request
  by_attempt : Effect → Request

-- The store's answers to the requests that end an attempt, none for an error: the cause that stops the
-- member, and the result.
pub record Store : Type 0 where
  pub flow : Effect → Option FlowResult
  pub leaves : Request → Option (Option String × Option String)

-- `Manager`. The wait group is a counter; `attempt_count` is never read by the code.
pub record Manager : Type 0 where
  pub members : Cache ℤ ℕ
  pub heap : List (ℕ × Cell)
  pub next : ℕ
  pub wg : ℕ
  pub attempt_count : ℕ
  pub queues : Cache ℤ BaseQueue
  pub wait_channel_close : Bool
  pub sent : List Request

abbrev pub max_queue_cache : ℕ
max_queue_cache = 10000

abbrev pub max_member_cache : ℕ
max_member_cache = 50000

abbrev pub max_expire_cache : ℤ
max_expire_cache = pos 0

unfoldable pub new_queue_manager : Bool → Manager
unfolding new_lru_with_params
new_queue_manager wait_channel_close = record {
  members = new_lru_with_params max_member_cache max_expire_cache;
  heap = [];
  next = 0;
  wg = 0;
  attempt_count = 0;
  queues = new_lru_with_params max_queue_cache max_expire_cache;
  wait_channel_close = wait_channel_close;
  sent = [];
}

abbrev pub send : Request → Manager → Manager
send r s = record s { sent = r ∷ s.sent }

abbrev pub and_then : {A : Type 0} → Option Manager → (Manager → Option A) → Option A
and_then none f = none
and_then (some s) f = f s

-- A write to the attempt at an address.
unfoldable pub put_cell : ℕ → Cell → Manager → Manager
unfolding insert
put_cell p c s = record s { heap = insert p c s.heap }

abbrev pub set_attempt : Attempt → Cell → Cell
set_attempt a c = record c { attempt = a }

abbrev by_attempts : List Effect → List Request
by_attempts [] = []
by_attempts (e ∷ es) = Request.by_attempt e ∷ by_attempts es

-- What a method of an attempt has left: the attempt, and what it sent.
unfoldable pub after_method : ℕ → Cell → World → Manager → Manager
unfolding put_cell
after_method p c w s =
    put_cell p (set_attempt w.attempt c) (record s { sent = by_attempts w.effects ++ s.sent })

-- A method that may panic.
unfoldable pub finish_method : ℕ → Cell → Option World → Manager → Option Manager
unfolding after_method
finish_method p c none s = none
finish_method p c (some w) s = some (after_method p c w s)

-- `GetAttempt`
unfoldable pub get_attempt : ℤ → ℤ → Manager → Manager × Option ℕ
unfolding get
get_attempt now id s = let (read, hit) = get now s.members id in (record s { members = read }, hit)

-- `createAttempt`
unfoldable pub create_attempt : ℤ → MemberCommunication → MemberAttempt → Manager → Manager × ℕ
unfolding new_attempt insert add_with_default_expires
create_attempt now communication conf s =
    let cell : Cell = record {
      attempt = new_attempt communication conf;
      manual_distribution = false;
      channel_data = ChannelData.no_data;
      form_open = false;
    } in
    (
      record s {
        members = add_with_default_expires now s.members conf.id s.next;
        heap = insert s.next cell s.heap;
        next = s.next + 1;
        wg = s.wg + 1;
        attempt_count = s.attempt_count + 1;
      },
      s.next,
    )

-- The agent of the configuration, which the agent manager answers for: none is its error.
unfoldable pub assign_agent : (ℤ → ℤ → Option Agent) → MemberAttempt → ℕ → Manager → Option Manager
unfolding put_cell lookup set_agent
assign_agent agents conf p s = elim conf.agent_id [
  | none ↦ some s
  | some id ↦ elim conf.agent_updated_at [
    | none ↦ some s
    | some at ↦ elim (agents id at) [
      | none ↦ none
      | some agent ↦ elim (lookup p s.heap) [
        | none ↦ none
        | some c ↦ some (put_cell p (set_attempt (set_agent (some agent) c.attempt) c) s)
      ]
    ]
  ]
]

-- `CreateAttemptIfNotExists`: it panics if the attempt exists, or if the agent manager fails.
unfoldable pub create_attempt_if_not_exists :
    (ℤ → ℤ → Option Agent)
    → ℤ
    → MemberCommunication
    → MemberAttempt
    → Manager
    → Option (Manager × ℕ)
unfolding get_attempt create_attempt assign_agent
create_attempt_if_not_exists agents now communication conf s =
    let (read, hit) = get_attempt now conf.id s in
    elim hit [
      | some p ↦ none
      | none ↦
          let (made, p) = create_attempt now communication conf read in
          and_then (assign_agent agents conf p made) (λ u. some (u, p))
    ]

-- `FlushAttemptFields`
unfoldable pub flush_attempt_fields : Attempt → Manager → Manager
unfolding processing_fields
flush_attempt_fields a s = elim (processing_fields a) [
  | [] ↦ s
  | f ∷ fs ↦ send (Request.form_fields a.member.id (f ∷ fs)) s
]

-- The draft of an attempt whose processing saves by itself; the answer is only logged.
unfoldable pub save_draft : Attempt → Manager → Manager
unfolding flush_attempt_fields is_processing_autosave_enabled
save_draft a s =
    let flushed = flush_attempt_fields a s in
    if is_processing_autosave_enabled a
    then elim a.draft [
      | none ↦ flushed
      | some draft ↦
          send
            (Request.schema_written a.member.id draft a.max_attempts a.wait_between a.per_numbers)
            flushed
    ]
    else s

abbrev pub close_form : Cell → Manager → Manager
close_form c s = if c.form_open then send (Request.form_closed c.attempt.member.id) s else s

-- `wg.Done`, which panics below 0.
unfoldable pub done : Manager → Option Manager
done s = if s.wg == 0 then none else some (record s { wg = s.wg - 1 })

-- The attempt leaves the table; `membersCache.Remove` is by the id.
unfoldable pub remove_attempt : ℤ → Manager → Option Manager
unfolding done remove
remove_attempt id s = done (record s { members = remove s.members id })

-- The end of `LeavingMember`, for an attempt that the table has.
unfoldable pub leave : ℤ → ℕ → Cell → Manager → Option Manager
unfolding save_draft set_state finish_method remove_attempt
leave now p c s =
    and_then
      (finish_method p c (set_state now "leaving" (record { attempt = c.attempt; effects = [] }))
        (save_draft c.attempt s))
      (λ u. remove_attempt c.attempt.member.id (close_form c u))

-- The start: a result, and the notice for an attempt that agents take by hand.
unfoldable pub settle : Cell → Cell
unfolding result set_result
settle c = if result c.attempt ==s "" then set_attempt (set_result "abandoned" c.attempt) c else c

unfoldable pub notify_intercept : Cell → Manager → Manager
notify_intercept c s =
    if c.manual_distribution && (c.attempt.bridged_at ==ℤ pos 0)
    then send
        (Request.intercepted c.attempt.domain_id c.attempt.member.queue_id c.attempt.channel
          c.attempt.member.id)
        s
    else s

unfoldable pub leave_if_there : ℤ → ℕ → Cell → Manager → Option Manager
unfolding get_attempt leave
leave_if_there now p c s =
    let (read, hit) = get_attempt now c.attempt.member.id s in
    elim hit [ none ↦ some read | some q ↦ leave now p c read ]

unfoldable pub leaving_cell : ℤ → ℕ → Cell → Manager → Option Manager
unfolding settle notify_intercept put_cell leave_if_there
leaving_cell now p c s =
    leave_if_there now p (settle c) (notify_intercept (settle c) (put_cell p (settle c) s))

-- `LeavingMember`
unfoldable pub leaving_member : ℤ → ℕ → Manager → Option Manager
unfolding lookup leaving_cell
leaving_member now p s = elim (lookup p s.heap) [ none ↦ none | some c ↦ leaving_cell now p c s ]

-- An attempt that is written back, after a request, and leaves.
unfoldable pub leave_as : ℤ → ℕ → Cell → Manager → Option Manager
unfolding put_cell leaving_cell
leave_as now p c s = leaving_cell now p c (put_cell p c s)

unfoldable pub leave_with : ℤ → ℕ → Cell → Request → Manager → Option Manager
unfolding leave_as
leave_with now p c r s = leave_as now p c (send r s)

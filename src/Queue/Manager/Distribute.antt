-- ===== src/Queue/Manager/Distribute.antt =====
-- queue/queue_manager.go, `GetQueue`, `GetAttemptResource`, `DistributeAttempt` and
-- `FlipAttemptResource`; and `NewQueue` of queue/queue.go, whose kinds of queues are one type here.
-- What the kind of a queue does first with an attempt, and whether it refuses it, is `distributes`.
use call_center.Prelude.{
  ℕ, String, Option, none, some, Bool, true, false, ltb, if◌then◌else◌, ◌⊎◌, inl, inr, nat_key,
}
use call_center.Prelude.Int.{ℤ, pos, int_key}
use call_center.Prelude.StringMap.{lookup}
use call_center.Model.{AppError, new_app_error}
use call_center.Model.Member.{AttemptFlipResource}
use call_center.Model.Queue.{Queue}
use call_center.Lru.{get, add_with_default_expires}
use call_center.Queue.Resource.{Resource, get_display}
use call_center.Queue.State.{Attempt, BaseQueue}
use call_center.Queue.Attempt.{flip_resource}
use call_center.Queue.Base.{new_base_queue, queue_expired}
use call_center.Queue.Manager.{
  Cell, Request, Store, Manager, and_then, put_cell, set_attempt, leave_with, leaving_member,
}
use call_center.Queue.Manager.Ending.{abandon_cell}

-- How the load of a queue's settings ends.
pub data QueueLoad : Type 0 where
  queue_loads : Queue → QueueLoad
  queue_store_error : AppError → QueueLoad
  queue_other_error : String → QueueLoad

abbrev err_queue_type : AppError
err_queue_type =
    new_app_error "Dialing.NewQueue" "dialing.queue.new_queue.app_error"
      "Queue type is not implemented" (pos 500)

-- `NewQueue`: the types below that of an outbound call are implemented.
unfoldable pub new_queue : Queue → Option (AppError ⊎ BaseQueue)
unfolding new_base_queue
new_queue settings = elim (new_base_queue settings) [
  | none ↦ none
  | some q ↦ some (if ltb settings.type 10 then inr q else inl err_queue_type)
]

abbrev pub fresh_queue : ℤ → Option BaseQueue → Option BaseQueue
fresh_queue updated_at none = none
fresh_queue updated_at (some q) = if queue_expired updated_at q then none else some q

abbrev pub keep_queue : ℤ → ℤ → AppError ⊎ BaseQueue → Manager → Manager × (AppError ⊎ BaseQueue)
keep_queue now id (inl e) s = (s, inl e)
keep_queue now id (inr q) s =
    (record s { queues = add_with_default_expires now s.queues id q }, inr q)

unfoldable pub load_queue : ℤ → QueueLoad → ℤ → Manager → Option (Manager × (AppError ⊎ BaseQueue))
unfolding new_queue new_app_error
load_queue now (queue_loads settings) id s = elim (new_queue settings) [
  | none ↦ none
  | some made ↦ some (keep_queue now id made s)
]
load_queue now (queue_store_error e) id s = some (s, inl e)
load_queue now (queue_other_error text) id s =
    some (s, inl (new_app_error "Queue.Get" "queue.get.app_err" text (pos 500)))

-- `GetQueue`
unfoldable pub get_queue :
    ℤ → QueueLoad → ℤ → ℤ → Manager → Option (Manager × (AppError ⊎ BaseQueue))
unfolding get queue_expired load_queue
get_queue now load id updated_at s =
    let (read, hit) = get now s.queues id in
    elim (fresh_queue updated_at hit) [
      | some q ↦ some (record s { queues = read }, inr q)
      | none ↦ load_queue now load id (record s { queues = read })
    ]

-- `GetAttemptResource`: what the manager of the resources answers for the version; an error is logged.
unfoldable pub attempt_resource : (ℤ → ℤ → Option Resource) → Attempt → Option Resource
attempt_resource resources a = elim a.member.resource_id [
  | none ↦ none
  | some id ↦ elim a.member.resource_updated_at [ none ↦ none | some at ↦ resources id at ]
]

abbrev pub in_queue : BaseQueue → Attempt → Attempt
in_queue q a = record a { domain_id = q.domain_id; channel = q.channel; queue = some q }

abbrev pub is_barred : Attempt → Bool
is_barred a = elim a.member.list_communication_id [ none ↦ false | some _ ↦ true ]

-- How `DistributeAttempt` ends: the queue, no queue and no error, or an error.
pub data Distributed : Type 0 where
  joined : BaseQueue → Distributed
  left_barred : Distributed
  refused : AppError → Distributed

abbrev pub ends_as : Distributed → Option Manager → Option (Manager × Distributed)
ends_as d none = none
ends_as d (some s) = some (s, d)

-- An attempt to a barred destination; the store's error is only logged.
unfoldable pub distribute_barred : ℤ → ℕ → Cell → Manager → Option (Manager × Distributed)
unfolding leave_with
distribute_barred now p c s = ends_as left_barred (
    leave_with now p c
      (Request.barred c.attempt.member.id c.attempt.member.block_all_member_numbers_from_list) s)

-- A queue that refuses: `Abandoned`, which lets the attempt leave, and then `LeavingMember` again.
unfoldable pub distribute_refused :
    Store → ℤ → ℕ → Cell → AppError → Manager → Option (Manager × Distributed)
unfolding abandon_cell leaving_member
distribute_refused st now p c e s =
    ends_as (refused e) (and_then (abandon_cell st now p c s) (λ u. leaving_member now p u))

unfoldable pub distribute_answer :
    Store → ℤ → ℕ → BaseQueue → Cell × Option AppError → Manager → Option (Manager × Distributed)
unfolding put_cell distribute_refused
distribute_answer st now p q (c, none) s = some (put_cell p c s, joined q)
distribute_answer st now p q (c, some e) s = distribute_refused st now p c e s

-- With its queue.
unfoldable pub distribute_in :
    Store
    → (ℤ → ℤ → Option Resource)
    → (Cell → Cell × Option AppError)
    → ℤ
    → ℕ
    → BaseQueue
    → Cell
    → Manager
    → Option (Manager × Distributed)
unfolding put_cell distribute_barred attempt_resource distribute_answer
distribute_in st resources distributes now p q c s =
    let a = in_queue q c.attempt in
    let queued = set_attempt a c in
    let ready = set_attempt (record a { resource = attempt_resource resources a }) c in
    if is_barred a
    then distribute_barred now p queued s
    else distribute_answer st now p q (distributes ready) s

unfoldable pub distribute_loaded :
    Store
    → (ℤ → ℤ → Option Resource)
    → (Cell → Cell × Option AppError)
    → ℤ
    → ℕ
    → Cell
    → Option (Manager × (AppError ⊎ BaseQueue))
    → Option (Manager × Distributed)
unfolding distribute_in
distribute_loaded st resources distributes now p c none = none
distribute_loaded st resources distributes now p c (some (s, inl e)) = some (s, refused e)
distribute_loaded st resources distributes now p c (some (s, inr q)) =
    distribute_in st resources distributes now p q c s

-- `DistributeAttempt`: an attempt whose queue cannot be loaded stays in the table.
unfoldable pub distribute_cell :
    Store
    → (ℤ → ℤ → Option Resource)
    → (Cell → Cell × Option AppError)
    → ℤ
    → QueueLoad
    → ℕ
    → Cell
    → Manager
    → Option (Manager × Distributed)
unfolding get_queue distribute_loaded
distribute_cell st resources distributes now load p c s =
    distribute_loaded st resources distributes now p c
      (get_queue now load c.attempt.member.queue_id c.attempt.member.queue_updated_at s)

unfoldable pub distribute_attempt :
    Store
    → (ℤ → ℤ → Option Resource)
    → (Cell → Cell × Option AppError)
    → ℤ
    → QueueLoad
    → ℕ
    → Manager
    → Option (Manager × Distributed)
unfolding lookup distribute_cell
distribute_attempt st resources distributes now load p s = elim (lookup p s.heap) [
  | none ↦ none
  | some c ↦ distribute_cell st resources distributes now load p c s
]

-- `FlipAttemptResource`, with the choice of a number by the resource: an attempt that gets no resource
-- panics, since its number is read from it.
unfoldable pub flip_attempt_resource :
    (ℤ → ℤ → Option Resource)
    → ℕ
    → AppError ⊎ AttemptFlipResource
    → ℕ
    → Cell
    → Manager
    → Option (Manager × (AppError ⊎ AttemptFlipResource))
unfolding flip_resource attempt_resource get_display put_cell
flip_attempt_resource resources pick (inl e) p c s = some (s, inl e)
flip_attempt_resource resources pick (inr res) p c s = elim res.resource_id [
  | none ↦ some (s, inr res)
  | some id ↦
      let flipped = flip_resource res c.attempt in
      elim (attempt_resource resources flipped) [
        | none ↦ none
        | some r ↦
            let shown = record flipped.communication { display = some (get_display pick r) } in
            some (
              put_cell p
                  (set_attempt (record flipped { resource = some r; communication = shown }) c) s,
              inr res,
            )
      ]
]

-- ===== src/Queue/Manager/Runs/Distributes.antt =====
-- `DistributeAttempt` of queue/queue_manager.go keeps the books.
use call_center.Prelude.{
  ℕ, refl, Option, none, some, Option-cases, Bool-cases, ◌⊎◌, inl, inr, nat_key,
}
use call_center.Prelude.Int.{ℤ, int_key}
use call_center.Prelude.StringMap.{lookup}
use call_center.Model.{AppError}
use call_center.Lru.{get}
use call_center.Queue.Resource.{Resource}
use call_center.Queue.State.{BaseQueue}
use call_center.Queue.Manager.{Cell, Store, Manager, and_then, set_attempt, leaving_member}
use call_center.Queue.Manager.Ending.{abandon_cell}
use call_center.Queue.Manager.Distribute.{
  QueueLoad, queue_loads, queue_store_error, queue_other_error, Distributed, new_queue, keep_queue,
  fresh_queue, get_queue, load_queue, distribute_barred, distribute_refused, distribute_answer,
  distribute_in, distribute_loaded, distribute_cell, distribute_attempt, ends_as, in_queue,
  is_barred,
}
use call_center.Queue.Manager.Books.{Books, Same-Books, IfDone, and_then-IfDone}
use call_center.Queue.Manager.Runs.{
  IfBoth, abandon_cell-Books, leaving_member-Books, leave_with-Books, put_cell-Books,
}

-- The distribution of an attempt.
ends_as-Books : (d : Distributed) (o : Option Manager) → IfDone Books o → IfBoth Books (ends_as d o)
ends_as-Books d none k = k
ends_as-Books d (some s) k = k

distribute_refused-Books :
    (st : Store) (now : ℤ) (p : ℕ) (c : Cell) (e : AppError) (s : Manager)
    → Books s
    → IfBoth Books (distribute_refused st now p c e s)
unfolding distribute_refused
distribute_refused-Books st now p c e s b =
    ends_as-Books (Distributed.refused e)
      (and_then (abandon_cell st now p c s) (λ u. leaving_member now p u))
      (and_then-IfDone Books Books (abandon_cell st now p c s) (λ u. leaving_member now p u)
        (abandon_cell-Books st now p c s b) (λ u k. leaving_member-Books now p u k))

distribute_answer-Books :
    (st : Store) (now : ℤ) (p : ℕ) (q : BaseQueue) (r : Cell × Option AppError) (s : Manager)
    → Books s
    → IfBoth Books (distribute_answer st now p q r s)
unfolding distribute_answer
distribute_answer-Books st now p q (c, none) s b = put_cell-Books p c s b
distribute_answer-Books st now p q (c, some e) s b = distribute_refused-Books st now p c e s b

distribute_barred-Books :
    (now : ℤ) (p : ℕ) (c : Cell) (s : Manager)
    → Books s
    → IfBoth Books (distribute_barred now p c s)
unfolding distribute_barred
distribute_barred-Books now p c s b =
    ends_as-Books Distributed.left_barred _ (leave_with-Books now p c _ s b)

distribute_loaded-Books :
    (st : Store) (resources : ℤ → ℤ → Option Resource) (distributes : Cell → Cell × Option AppError)
    (now : ℤ) (p : ℕ) (c : Cell) (o : Option (Manager × (AppError ⊎ BaseQueue)))
    → IfBoth Books o
    → IfBoth Books (distribute_loaded st resources distributes now p c o)
unfolding distribute_loaded distribute_in
distribute_loaded-Books st resources distributes now p c none b = tt
distribute_loaded-Books st resources distributes now p c (some (s, inl e)) b = b
distribute_loaded-Books st resources distributes now p c (some (s, inr q)) b =
    elim (Bool-cases (is_barred (in_queue q c.attempt))) [
      | inl h ↦
          rw (h, distribute_in)
            (distribute_barred-Books now p (set_attempt (in_queue q c.attempt) c) s b)
      | inr h ↦ rw (h, distribute_in) (distribute_answer-Books st now p q _ s b)
    ]

kept-Books :
    (now id : ℤ) (made : AppError ⊎ BaseQueue) (s : Manager)
    → Books s
    → Books (keep_queue now id made s).0
kept-Books now id (inl e) s b = b
kept-Books now id (inr q) s b = Same-Books s (keep_queue now id (inr q) s).0 (refl, refl, refl) b

load_queue-Books :
    (now : ℤ) (load : QueueLoad) (id : ℤ) (s : Manager)
    → Books s
    → IfBoth Books (load_queue now load id s)
unfolding load_queue
load_queue-Books now (queue_loads settings) id s b = elim (Option-cases (new_queue settings)) [
  | inl h ↦ rw (h, load_queue) tt
  | inr (made, h) ↦ rw (h, load_queue) (kept-Books now id made s b)
]
load_queue-Books now (queue_store_error e) id s b = b
load_queue-Books now (queue_other_error text) id s b = b

get_queue-Books :
    (now : ℤ) (load : QueueLoad) (id at : ℤ) (s : Manager)
    → Books s
    → IfBoth Books (get_queue now load id at s)
unfolding get_queue
get_queue-Books now load id at s b =
    let read = record s { queues = (get now s.queues id).0 } in
    let books = Same-Books s read (refl, refl, refl) b in
    elim (Option-cases (fresh_queue at (get now s.queues id).1)) [
      | inl h ↦ rw (h, get_queue) (load_queue-Books now load id read books)
      | inr (q, h) ↦ rw (h, get_queue) books
    ]

pub distribute_attempt-Books :
    (st : Store) (resources : ℤ → ℤ → Option Resource) (distributes : Cell → Cell × Option AppError)
    (now : ℤ) (load : QueueLoad) (p : ℕ) (s : Manager)
    → Books s
    → IfBoth Books (distribute_attempt st resources distributes now load p s)
unfolding distribute_attempt distribute_cell
distribute_attempt-Books st resources distributes now load p s b =
    elim (Option-cases (lookup p s.heap)) [
      | inl h ↦ rw (h, distribute_attempt) tt
      | inr (c, h) ↦
          rw (h, distribute_attempt)
            (distribute_loaded-Books st resources distributes now p c
              (get_queue now load c.attempt.member.queue_id c.attempt.member.queue_updated_at s)
              (get_queue-Books now load c.attempt.member.queue_id c.attempt.member.queue_updated_at
                s b))
    ]

-- ===== src/Queue/Manager/Distributed.antt =====
-- `DistributeAttempt` of queue/queue_manager.go: an attempt to a barred destination.
use call_center.Prelude.{ℕ, ◌≡◌, refl, ◌∙◌, Option, none, some, true, nat_key}
use call_center.Prelude.Int.{ℤ, int_key}
use call_center.Prelude.StringMap.{lookup}
use call_center.Model.{AppError}
use call_center.Lru.{get}
use call_center.Queue.Resource.{Resource}
use call_center.Queue.State.{BaseQueue}
use call_center.Queue.Manager.{
  Cell, Request, Store, Manager, send, set_attempt, get_attempt, leave_as, leave_with,
}
use call_center.Queue.Manager.Distribute.{
  QueueLoad, Distributed, left_barred, fresh_queue, get_queue, in_queue, is_barred, ends_as,
  distribute_barred, distribute_in, distribute_loaded, distribute_cell, distribute_attempt,
}
use call_center.Queue.Manager.Books.{Books, Same-Books, Left, Ends}
use call_center.Queue.Manager.Leaves.{Same-Left, Same-get, Ends-map}
use call_center.Queue.Manager.Written.{EndsBoth, leave_as-Left}

-- The queues that the manager looked through.
abbrev looked : ℤ → ℤ → Manager → Manager
looked now id s = record s { queues = (get now s.queues id).0 }

barred-Left :
    (now : ℤ) (q : BaseQueue) (p r : ℕ) (c : Cell) (w : Request) (s : Manager)
    → Books s
    → c.attempt.queue ≡ some q
    → (get_attempt now c.attempt.member.id s).1 ≡ some r
    → Ends (Left c.attempt.member.id s) (leave_with now p c w s)
unfolding leave_with
barred-Left now q p r c w s b queued found =
    let id = c.attempt.member.id in
    let told = send w s in
    Ends-map _ _ (leave_as now p c told) (λ u l. Same-Left id s told u (refl, refl, refl) l)
      (leave_as-Left now id q p r c told (Same-Books s told (refl, refl, refl) b) refl queued
        (Same-get s told (refl, refl, refl) now id ∙ found))

ends_as-Both :
    (P : Manager → Type 0) (d : Distributed) (o : Option Manager)
    → Ends P o
    → EndsBoth P (ends_as d o)
ends_as-Both P d none k = k
ends_as-Both P d (some s) k = k

-- Where the books are in order, an attempt to a barred destination, that the table has and whose queue
-- the cache has, leaves at once: the manager does not panic, and it is out of the table and the wait group.
pub distribute_attempt-Left :
    (st : Store) (resources : ℤ → ℤ → Option Resource) (distributes : Cell → Cell × Option AppError)
    (now : ℤ) (load : QueueLoad) (q : BaseQueue) (p r : ℕ) (c : Cell) (s : Manager)
    → Books s
    → lookup p s.heap ≡ some c
    → (get_attempt now c.attempt.member.id s).1 ≡ some r
    → fresh_queue c.attempt.member.queue_updated_at (get now s.queues c.attempt.member.queue_id).1
      ≡ some q
    → is_barred c.attempt ≡ true
    → EndsBoth
        (Left c.attempt.member.id s)
        (distribute_attempt st resources distributes now load p s)
unfolding distribute_attempt distribute_cell get_queue distribute_loaded distribute_in
    distribute_barred
distribute_attempt-Left st resources distributes now load q p r c s b at hit fresh barred =
    let seen = looked now c.attempt.member.queue_id s in
    let queued = set_attempt (in_queue q c.attempt) c in
    let write =
      Request.barred c.attempt.member.id c.attempt.member.block_all_member_numbers_from_list in
    let left = leave_with now p queued write seen in
    rw (at, distribute_attempt)
      (rw (fresh, get_queue)
        (rw (barred, distribute_in)
          (ends_as-Both _ left_barred left (
            Ends-map _ _ left (λ u l. Same-Left c.attempt.member.id s seen u (refl, refl, refl) l)
              (barred-Left now q p r queued write seen (Same-Books s seen (refl, refl, refl) b) refl
                (Same-get s seen (refl, refl, refl) now c.attempt.member.id ∙ hit))))))

-- ===== src/Queue/Manager/Runs/All.antt =====
-- All methods of queue/queue_manager.go that touch the table of the attempts, in any order.
use call_center.Prelude.{
  ℕ, ◌≤◌, ◌≡◌, refl, Option, none, some, Option-cases, List, [], ◌∷◌, Bool, ◌⊎◌, inl, inr, arith,
  length, String, nat_key,
}
use call_center.Prelude.Int.{ℤ, pos, int_key}
use call_center.Prelude.StringMap.{lookup}
use call_center.Model.{AppError}
use call_center.Model.Agent.{Agent}
use call_center.Model.Maps.{StringMap}
use call_center.Model.Member.{
  MemberAttempt, MemberCommunication, AttemptCallback, AttemptFlipResource,
}
use call_center.Lru.{find, new_lru_with_params}
use call_center.Lru.Invariant.{new_lru-Inv}
use call_center.Lru.Answers.{find-get}
use call_center.Lru.Lasting.{get-find}
use call_center.Queue.Resource.{Resource}
use call_center.Queue.Attempt.{flip_resource}
use call_center.Queue.Manager.{
  Cell, Store, Manager, and_then, new_queue_manager, put_cell, get_attempt, create_attempt,
  assign_agent, create_attempt_if_not_exists, leaving_member,
}
use call_center.Queue.Manager.Ending.{
  abandoned, set_attempt_success, set_attempt_abandoned_with_params, set_attempt_cancel,
  cancel_agent_distribute, transfer_to, timeout_leaving_member,
}
use call_center.Queue.Manager.Distribute.{
  QueueLoad, distribute_attempt, attempt_resource, flip_attempt_resource,
}
use call_center.Queue.Manager.Reporting.{Channels}
use call_center.Queue.Manager.Report.{reporting_attempt, at_cell}
use call_center.Queue.Manager.Books.{
  Books, Same, Same-Books, IfDone, and_then-IfDone, get_attempt-Books, create_attempt-Books,
}
use call_center.Queue.Manager.Runs.{
  IfBoth, at_address, leaving_member-Books, abandoned-Books, transfer_to-Books, put_cell-Books,
  set_attempt_cancel-Books, cancel_agent_distribute-Books, timeout_leaving_member-Books,
}
use call_center.Queue.Manager.Runs.Distributes.{distribute_attempt-Books}
use call_center.Queue.Manager.Runs.Reports.{reporting_attempt-Books}

-- The answers of the other parts.
pub record Parts : Type 0 where
  pub store : Store
  pub channels : Channels
  pub agents : ℤ → ℤ → Option Agent
  pub resources : ℤ → ℤ → Option Resource

-- One call of the manager, at a time of the clock.
pub data Step : Type 0 where
  finds : ℤ → ℤ → Step
  creates : ℤ → MemberCommunication → MemberAttempt → Step
  distributes : ℤ → (Cell → Cell × Option AppError) → QueueLoad → ℕ → Step
  leaves : ℤ → ℕ → Step
  abandons : ℤ → ℕ → Step
  times_out : ℤ → ℕ → Step
  transfers : ℤ → ℤ → ℕ → Step
  cancels : ℤ → ℤ → String → Step
  cancels_agent : ℤ → List ℤ → Step
  reports : ℤ → ℤ → AttemptCallback → Bool → Bool → Step
  succeeds : Option StringMap → ℕ → Step
  abandons_with : ℕ → ℕ → Option StringMap → ℕ → Step
  flips : ℕ → AppError ⊎ AttemptFlipResource → ℕ → Step

abbrev pub drop {ℓ} : {A : Type ℓ} → Option (Manager × A) → Option Manager
drop none = none
drop (some (s, a)) = some s

unfoldable pub step : Parts → Step → Manager → Option Manager
step g (finds now id) s = some (get_attempt now id s).0
step g (creates now communication conf) s =
    drop (create_attempt_if_not_exists g.agents now communication conf s)
step g (distributes now f load p) s = drop (distribute_attempt g.store g.resources f now load p s)
step g (leaves now p) s = leaving_member now p s
step g (abandons now p) s = abandoned g.store now p s
step g (times_out now p) s = timeout_leaving_member g.store now p s
step g (transfers now to p) s = at_cell p s (λ c. transfer_to now to p c s)
step g (cancels now id res) s = drop (set_attempt_cancel now id res s)
step g (cancels_agent now ids) s = cancel_agent_distribute now ids s
step g (reports now id cb system draft) s =
    drop (reporting_attempt g.store g.channels now id cb system draft s)
step g (succeeds vars p) s = at_cell p s (λ c. some (set_attempt_success g.store vars p c s))
step g (abandons_with max sleep vars p) s =
    at_cell p s (λ c. some (set_attempt_abandoned_with_params g.store max sleep vars p c s))
step g (flips pick res p) s =
    at_cell p s (λ c. drop (flip_attempt_resource g.resources pick res p c s))

unfoldable pub run : Parts → List Step → Manager → Option Manager
unfolding step
run g [] s = some s
run g (x ∷ xs) s = and_then (step g x s) (λ u. run g xs u)

drop-Books : {A : Type 0} → (o : Option (Manager × A)) → IfBoth Books o → IfDone Books (drop o)
drop-Books none k = tt
drop-Books (some (s, a)) k = k

assign_agent-Books :
    (agents : ℤ → ℤ → Option Agent) (conf : MemberAttempt) (p : ℕ) (s : Manager)
    → Books s
    → IfDone Books (assign_agent agents conf p s)
unfolding assign_agent
assign_agent-Books agents conf p s b = elim (Option-cases conf.agent_id) [
  | inl h ↦ rw (h, assign_agent) b
  | inr (id, h) ↦ elim (Option-cases conf.agent_updated_at) [
    | inl k ↦ rw (h, assign_agent) (rw k b)
    | inr (at, k) ↦ elim (Option-cases (agents id at)) [
      | inl e ↦ rw (h, assign_agent) (rw k (rw e tt))
      | inr (agent, e) ↦
          rw (h, assign_agent)
            (rw k
              (rw e (at_address p s (λ c. some (put_cell p _ s)) (λ c. put_cell-Books p _ s b))))
    ]
  ]
]

with_address :
    (o : Option Manager) (p : ℕ) → IfDone Books o → IfBoth Books (and_then o (λ u. some (u, p)))
with_address none p k = tt
with_address (some u) p k = k

unread :
    (now id : ℤ) (s : Manager)
    → Books s
    → (get_attempt now id s).1 ≡ none
    → find (get_attempt now id s).0.members id ≡ none
unfolding get_attempt
unread now id s b h =
    ground
      (arith, find-get now s.members id id b.lasting.inv, get-find now s.members id b.lasting h)

create-Books :
    (agents : ℤ → ℤ → Option Agent) (now : ℤ) (communication : MemberCommunication)
    (conf : MemberAttempt) (s : Manager)
    → Books s
    → IfBoth Books (create_attempt_if_not_exists agents now communication conf s)
unfolding create_attempt_if_not_exists
create-Books agents now communication conf s b =
    let read = (get_attempt now conf.id s).0 in
    let books = get_attempt-Books now conf.id s b in
    elim (Option-cases (get_attempt now conf.id s).1) [
      | inr (p, h) ↦ rw (h, create_attempt_if_not_exists) tt
      | inl h ↦
          let free : find read.members conf.id ≡ none = unread now conf.id s b h in
          rw (h, create_attempt_if_not_exists)
            (let made = create_attempt now communication conf read in
              with_address (assign_agent agents conf made.1 made.0) made.1 (
                assign_agent-Books agents conf made.1 made.0
                  (create_attempt-Books now communication conf read books free)))
    ]

set_attempt_success-Same :
    (st : Store) (vars : Option StringMap) (p : ℕ) (c : Cell) (s : Manager)
    → Same s (set_attempt_success st vars p c s)
unfolding set_attempt_success put_cell
set_attempt_success-Same st vars p c s = ground arith

abandoned_with-Same :
    (st : Store) (max sleep : ℕ) (vars : Option StringMap) (p : ℕ) (c : Cell) (s : Manager)
    → Same s (set_attempt_abandoned_with_params st max sleep vars p c s)
unfolding set_attempt_abandoned_with_params put_cell
abandoned_with-Same st max sleep vars p c s = ground arith

flip-Books :
    (resources : ℤ → ℤ → Option Resource) (pick : ℕ) (res : AppError ⊎ AttemptFlipResource) (p : ℕ)
    (c : Cell) (s : Manager)
    → Books s
    → IfBoth Books (flip_attempt_resource resources pick res p c s)
unfolding flip_attempt_resource
flip-Books resources pick (inl e) p c s b = b
flip-Books resources pick (inr res) p c s b = elim (Option-cases res.resource_id) [
  | inl h ↦ rw (h, flip_attempt_resource) b
  | inr (id, h) ↦ elim (Option-cases (attempt_resource resources (flip_resource res c.attempt))) [
    | inl k ↦ rw (h, flip_attempt_resource) (rw k tt)
    | inr (r, k) ↦ rw (h, flip_attempt_resource) (rw k (put_cell-Books p _ s b))
  ]
]

step-Books : (g : Parts) (x : Step) (s : Manager) → Books s → IfDone Books (step g x s)
unfolding step
step-Books g (finds now id) s b = get_attempt-Books now id s b
step-Books g (creates now communication conf) s b =
    drop-Books _ (create-Books g.agents now communication conf s b)
step-Books g (distributes now f load p) s b =
    drop-Books _ (distribute_attempt-Books g.store g.resources f now load p s b)
step-Books g (leaves now p) s b = leaving_member-Books now p s b
step-Books g (abandons now p) s b = abandoned-Books g.store now p s b
step-Books g (times_out now p) s b = timeout_leaving_member-Books g.store now p s b
step-Books g (transfers now to p) s b =
    at_address p s (λ c. transfer_to now to p c s) (λ c. transfer_to-Books now to p c s b)
step-Books g (cancels now id res) s b = drop-Books _ (set_attempt_cancel-Books now id res s b)
step-Books g (cancels_agent now ids) s b = cancel_agent_distribute-Books now ids s b
step-Books g (reports now id cb system draft) s b =
    drop-Books _ (reporting_attempt-Books g.store g.channels now id cb system draft s b)
step-Books g (succeeds vars p) s b =
    at_address p s (λ c. some (set_attempt_success g.store vars p c s))
      (λ c. Same-Books s _ (set_attempt_success-Same g.store vars p c s) b)
step-Books g (abandons_with max sleep vars p) s b =
    at_address p s (λ c. some (set_attempt_abandoned_with_params g.store max sleep vars p c s))
      (λ c. Same-Books s _ (abandoned_with-Same g.store max sleep vars p c s) b)
step-Books g (flips pick res p) s b =
    at_address p s (λ c. drop (flip_attempt_resource g.resources pick res p c s))
      (λ c. drop-Books _ (flip-Books g.resources pick res p c s b))

pub run-Books : (g : Parts) (xs : List Step) (s : Manager) → Books s → IfDone Books (run g xs s)
unfolding run
run-Books g [] s b = b
run-Books g (x ∷ xs) s b =
    and_then-IfDone Books Books (step g x s) (λ u. run g xs u) (step-Books g x s b)
      (λ u k. run-Books g xs u k)

pub new_queue_manager-Books : (wait : Bool) → Books (new_queue_manager wait)
unfolding new_queue_manager new_lru_with_params find lookup
new_queue_manager-Books wait = record {
  lasting = record { inv = new_lru-Inv 50000 (pos 0); lasts = λ k e h. ground arith };
  size = refl;
  expiry = refl;
  counted = omega arith;
  bounded = omega arith;
  exact = λ h. refl;
}

-- The attempts that wait for their end, against those in the table.
pub record Counted (s : Manager) : Type 0 where
  pub at_least : length s.members.evict_list ≤ s.wg
  pub exactly : s.attempt_count ≤ 50000 → s.wg ≡ length s.members.evict_list

counted : (o : Option Manager) → IfDone Books o → IfDone Counted o
counted none b = tt
counted (some s) b = record { at_least = b.counted; exactly = b.exact }

-- After every sequence from the manager's start, if it returns, of `GetAttempt`,
-- `CreateAttemptIfNotExists`, `DistributeAttempt`, `LeavingMember`, `Abandoned`, `TimeoutLeavingMember`,
-- `TransferTo`, `SetAttemptCancel`, `CancelAgentDistribute`, `ReportingAttempt`, `SetAttemptSuccess`,
-- `SetAttemptAbandonedWithParams` and `FlipAttemptResource`, the wait group counts no fewer attempts than
-- the table holds, and just as many as long as no more than 50,000 were created.
pub run-Counted :
    (g : Parts) (xs : List Step) (wait : Bool) → IfDone Counted (run g xs (new_queue_manager wait))
run-Counted g xs wait =
    counted (run g xs (new_queue_manager wait))
      (run-Books g xs (new_queue_manager wait) (new_queue_manager-Books wait))

-- ===== src/Queue/Manager/Tests.antt =====
-- The theorems on the manager of queues, at an attempt of a queue of calls.
use call_center.Prelude.{ℕ, ◌≡◌, refl, Option, none, some, [], ◌∷◌, true, false, inr, nat_key}
use call_center.Prelude.Int.{ℤ, pos, int_key}
use call_center.Prelude.StringMap.{lookup, insert}
use call_center.Model.{AppError, new_app_error}
use call_center.Model.Member.{MemberAttempt, MemberCommunication, AttemptCallback}
use call_center.Lru.{
  find, get, evict, push_new, deadline, new_lru_with_params, add_with_expires_in_secs,
  add_with_default_expires,
}
use call_center.Lru.Elements.{deref}
use call_center.Queue.State.{BaseQueue}
use call_center.Queue.Base.{queue_expired}
use call_center.Queue.Attempt.{new_attempt}
use call_center.Queue.Manager.{
  Cell, Store, Manager, new_queue_manager, put_cell, set_attempt, get_attempt, create_attempt,
  leaving_member,
}
use call_center.Queue.Manager.Distribute.{queue_store_error, distribute_attempt}
use call_center.Queue.Manager.Reporting.{ReportingResult, Channels}
use call_center.Queue.Manager.Report.{reporting_attempt}
use call_center.Queue.Manager.Books.{Books, Same-Books, Left, Ends, IfDone, create_attempt-Books}
use call_center.Queue.Manager.Once.{Unmoved, leaving_member-leaving_member}
use call_center.Queue.Manager.Written.{EndsBoth}
use call_center.Queue.Manager.Reported.{reporting_attempt-Left}
use call_center.Queue.Manager.Distributed.{distribute_attempt-Left}
use call_center.Queue.Manager.Runs.All.{
  Parts, creates, finds, reports, run, Counted, run-Counted, new_queue_manager-Books,
}

abbrev destination : MemberCommunication
destination = record {
  destination = "380501234567";
  type = record { id = pos 1; name = "mobile"; channel = none };
  priority = pos 0;
  display = none;
  description = "";
  attempts = pos 0;
  dtmf = none;
}

abbrev bob : MemberAttempt
bob = record {
  id = pos 42;
  queue_id = pos 7;
  queue_updated_at = pos 0;
  seq = none;
  communication_idx = none;
  member_id = some (pos 9);
  created_at = pos 1000;
  resource_id = none;
  resource_updated_at = none;
  gateway_updated_at = none;
  result = none;
  destination = [];
  list_communication_id = some (pos 3);
  agent_id = none;
  agent_updated_at = none;
  team_updated_at = none;
  variables = none;
  name = "Bob";
  member_call_id = none;
  timezone = none;
  bucket_id = none;
  block_all_member_numbers_from_list = false;
}

abbrev sales : BaseQueue
sales = record {
  channel = "call";
  id = pos 7;
  updated_at = pos 0;
  domain_id = pos 1;
  name = "sales";
  variables = [];
  after_schema_id = none;
  form_schema_id = none;
  processing = true;
  processing_sec = 30;
  processing_renewal_sec = 0;
  endless = false;
  hooks = [];
  prolongation_steps = 0;
  is_prolongation_enabled = false;
  prolongation_sec = 0;
  processing_autosave = false;
  type_id = 4;
  is_prolongation_timeout_retry = false;
  ringtone_uri = none;
  team_id = none;
}

abbrev cell : Cell
cell = record {
  attempt = record (new_attempt destination bob) { queue = some sales; channel = "call" };
  manual_distribution = false;
  channel_data = call_center.Queue.Manager.ChannelData.no_data;
  form_open = false;
}

abbrev created : Manager
created = (create_attempt (pos 5) destination bob (new_queue_manager true)).0

-- The attempt of Bob in its queue, which the manager has in its cache.
manager : Manager
unfolding new_attempt create_attempt new_queue_manager new_lru_with_params add_with_default_expires
    insert put_cell
manager =
    put_cell 0 cell
      (record created { queues = add_with_default_expires (pos 5) created.queues (pos 7) sales })

manager-Books : Books manager
unfolding manager create_attempt new_queue_manager new_lru_with_params add_with_default_expires find
    lookup insert
manager-Books =
    Same-Books created manager (refl, refl, refl)
      (create_attempt-Books (pos 5) destination bob (new_queue_manager true)
        (new_queue_manager-Books true) refl)

abbrev lost : AppError
lost = new_app_error "Store" "store.app_error" "no rows" (pos 500)

abbrev answer : ReportingResult
answer = record {
  timestamp = pos 9;
  channel = none;
  agent_call_id = none;
  user_id = none;
  domain_id = none;
  queue_id = none;
  agent_timeout = none;
  member_stop_cause = none;
}

abbrev store : Store
store = record { flow = λ e. none; leaves = λ r. none }

abbrev channels : Channels
channels = record {
  has_call = λ id. false;
  hangs_up = λ id. none;
  has_chat = λ id. false;
  chat_error = λ id. none;
  no_chat = lost;
  callback = λ r. inr answer;
  published = none;
}

abbrev failed : AttemptCallback
failed = record {
  status = "failed";
  next_call_at = none;
  expire_at = none;
  description = "";
  display = false;
  variables = [];
  sticky_agent_id = none;
  exclude_current_communication = none;
  redial = none;
  add_communications = [];
  wait_between_retries = none;
  only_current_communication = none;
}

found : (get_attempt (pos 6) (pos 42) manager).1 ≡ some 0
unfolding manager get_attempt get find lookup insert create_attempt new_queue_manager
    new_lru_with_params add_with_default_expires put_cell add_with_expires_in_secs evict push_new
    deref deadline
found = refl

leaving_member-leaving_member_example :
    Ends
      (λ u. Left (pos 42) manager u × ((later : ℤ) → Ends (Unmoved u) (leaving_member later 0 u)))
      (leaving_member (pos 6) 0 manager)
unfolding manager put_cell lookup insert
leaving_member-leaving_member_example =
    leaving_member-leaving_member (pos 6) 0 0 cell sales manager manager-Books refl refl found

reporting_attempt-Left_example :
    EndsBoth
      (Left (pos 42) manager)
      (reporting_attempt store channels (pos 6) (pos 42) failed true false manager)
unfolding manager put_cell lookup insert
reporting_attempt-Left_example =
    reporting_attempt-Left store channels (pos 6) (pos 42) failed answer sales 0 cell manager
      manager-Books found refl refl refl refl (λ r. refl)

distribute_attempt-Left_example : EndsBoth (Left (pos 42) manager) (
    distribute_attempt store
      (λ i at. none)
      (λ c. (c, none))
      (pos 6)
      (queue_store_error lost)
      0
      manager)
unfolding manager get find lookup insert create_attempt new_queue_manager new_lru_with_params
    add_with_default_expires put_cell add_with_expires_in_secs evict push_new deref deadline
    queue_expired
distribute_attempt-Left_example =
    distribute_attempt-Left store (λ i at. none) (λ c. (c, none)) (pos 6) (queue_store_error lost)
      sales 0 0 cell manager manager-Books refl found refl refl

abbrev parts : Parts
parts = record {
  store = store;
  channels = channels;
  agents = λ i at. none;
  resources = λ i at. none;
}

run-Counted_example : IfDone Counted (
    run parts
      (creates (pos 5) destination bob
        ∷ finds (pos 5) (pos 42)
        ∷ reports (pos 6) (pos 42) failed true true
        ∷ [])
      (new_queue_manager true))
run-Counted_example =
    run-Counted parts
      (creates (pos 5) destination bob
        ∷ finds (pos 5) (pos 42)
        ∷ reports (pos 6) (pos 42) failed true true
        ∷ [])
      true

-- A run that ends, with one attempt that waits.
abbrev waiting : Option Manager → Option ℕ
waiting none = none
waiting (some s) = some s.wg

run_ends :
    waiting (
      run parts
        (creates (pos 5) destination bob ∷ finds (pos 5) (pos 42) ∷ [])
        (new_queue_manager true))
    ≡ some 1
unfolding run call_center.Queue.Manager.create_attempt_if_not_exists find new_queue_manager
    leaving_member add_with_expires_in_secs evict push_new deref deadline create_attempt get_attempt
run_ends = refl

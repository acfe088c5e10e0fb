-- ===== src/Queue/Attempt/Tests.antt =====
-- The theorems on attempts, at an attempt of a queue that dials.
use call_center.Prelude.{
  String, Option, none, some, [], ◌∷◌, ◌≡◌, refl, true, false, if◌then◌else◌, ◌==s◌, arith,
  string_key,
}
use call_center.Prelude.Int.{pos}
use call_center.Prelude.Fmt.{show_int}
use call_center.Prelude.StringMap.{lookup}
use call_center.Model.Maps.{StringMap, or_else}
use call_center.Model.Member.{MemberAttempt, MemberCommunication, AttemptCallback}
use call_center.Queue.State.{Attempt, BaseQueue, Channel, Effect, World}
use call_center.Queue.Attempt.{
  new_attempt, result, set_im_transfer_to, reserve_im_transfer, release_im_transfer,
  complete_im_transfer,
}
use call_center.Queue.Attempt.Variables.{
  get_variable, add_variables, remove_variable, export_schema_variables,
}
use call_center.Queue.Attempt.Schema.{FlowResult, after_distribute_schema, apply_callback_rules}
use call_center.Queue.Attempt.Cancel.{
  IsSound, Kept, Returns, run, run-Kept, cancels, transfers, moves,
}
use call_center.Queue.Attempt.Transfer.{
  transfer_run, reserves, releases, reserve_im_transfer-transfer_run,
  complete_im_transfer-transfer_run,
}
use call_center.Queue.Attempt.Export.{
  get_variable-add_variables, get_variable-remove_variable, lookup-export_schema_variables,
}
use call_center.Queue.Attempt.Rules.{IsOpen, told_result, after_distribute_schema-told_result}
use call_center.Queue.Attempt.Callback.{Applied, apply_callback_rules_lem}

abbrev destination : MemberCommunication
destination = record {
  destination = "380501234567";
  type = record { id = pos 1; name = "mobile"; channel = none };
  priority = pos 0;
  display = none;
  description = "";
  attempts = pos 0;
  dtmf = none;
}

abbrev member : MemberAttempt
member = record {
  id = pos 42;
  queue_id = pos 7;
  queue_updated_at = pos 0;
  seq = none;
  communication_idx = none;
  member_id = some (pos 9);
  created_at = pos 1000;
  resource_id = none;
  resource_updated_at = none;
  gateway_updated_at = none;
  result = none;
  destination = [];
  list_communication_id = none;
  agent_id = none;
  agent_updated_at = none;
  team_updated_at = none;
  variables = some (("lang", "uk") ∷ []);
  name = "Bob";
  member_call_id = none;
  timezone = none;
  bucket_id = none;
  block_all_member_numbers_from_list = false;
}

abbrev queue : BaseQueue
queue = record {
  channel = "call";
  id = pos 7;
  updated_at = pos 0;
  domain_id = pos 1;
  name = "sales";
  variables = ("cc_result", "none") ∷ [];
  after_schema_id = some (pos 3);
  form_schema_id = none;
  processing = true;
  processing_sec = 30;
  processing_renewal_sec = 0;
  endless = false;
  hooks = ("bridged", 5) ∷ [];
  prolongation_steps = 0;
  is_prolongation_enabled = false;
  prolongation_sec = 0;
  processing_autosave = false;
  type_id = 1;
  is_prolongation_timeout_retry = false;
  ringtone_uri = none;
  team_id = none;
}

attempt : Attempt
unfolding new_attempt
attempt = record (new_attempt destination member) { queue = some queue; channel = "call" }

abbrev calling : World
calling = record { attempt = attempt; effects = [] }

attempt-IsSound : IsSound attempt
unfolding attempt
attempt-IsSound = record { closed_iff = refl; queued = ground arith }

run-Kept_example :
    Returns
      (Kept calling)
      (run (moves (pos 2000) "bridged" ∷ cancels ∷ transfers (pos 3000) ∷ cancels ∷ []) calling)
run-Kept_example =
    run-Kept (moves (pos 2000) "bridged" ∷ cancels ∷ transfers (pos 3000) ∷ cancels ∷ []) calling
      attempt-IsSound

attempt-reserves : (reserve_im_transfer attempt).1 ≡ true
unfolding attempt reserve_im_transfer
attempt-reserves = refl

reserve_im_transfer-transfer_run_example :
    let u =
      transfer_run
        (reserves ∷ releases (pos 8) ∷ [])
        (set_im_transfer_to (pos 50) (reserve_im_transfer attempt).0) in
    (u.im_transfer_to ≡ pos 50)
    × ((reserve_im_transfer u).1 ≡ false)
    × ((reserve_im_transfer (release_im_transfer (pos 50) u)).1 ≡ true)
reserve_im_transfer-transfer_run_example =
    reserve_im_transfer-transfer_run (pos 50) (reserves ∷ releases (pos 8) ∷ []) attempt refl
      attempt-reserves (tt, (refl, tt))

complete_im_transfer-transfer_run_example :
    let u = transfer_run (releases (pos 50) ∷ reserves ∷ []) (complete_im_transfer attempt) in
    (u.im_transferred_closed ≡ true) × ((reserve_im_transfer u).1 ≡ false)
complete_im_transfer-transfer_run_example =
    complete_im_transfer-transfer_run (releases (pos 50) ∷ reserves ∷ []) attempt

abbrev new_variables : StringMap
new_variables = ("lang", "en") ∷ ("vip", "1") ∷ []

get_variable-add_variables_example :
    get_variable "lang" (add_variables new_variables attempt)
    ≡ or_else (lookup "lang" new_variables) (get_variable "lang" attempt)
unfolding lookup
get_variable-add_variables_example =
    get_variable-add_variables "lang" new_variables attempt (refl, (refl, tt))

get_variable-remove_variable_example :
    get_variable "vip" (remove_variable "lang" attempt)
    ≡ (if "lang" ==s "vip" then none else get_variable "vip" attempt)
get_variable-remove_variable_example = get_variable-remove_variable "lang" "vip" attempt

attempt-channel : attempt.member_channel ≡ none
unfolding attempt
attempt-channel = refl

lookup-export_schema_variables_example :
    let m = export_schema_variables (pos 5000) attempt in
    (lookup "attempt_id" m ≡ some (show_int attempt.member.id))
    × (lookup "destination" m ≡ some attempt.communication.destination)
    × (lookup "timestamp" m ≡ some (show_int (pos 5000)))
    × ((result attempt ==s "") ≡ false → lookup "cc_result" m ≡ some (result attempt))
lookup-export_schema_variables_example =
    lookup-export_schema_variables (pos 5000) attempt attempt-channel

abbrev leg : Channel
leg = record { id = "leg-a"; stats = ("call_cause", "NORMAL_CLEARING") ∷ []; answered = true }

talked : Attempt
unfolding attempt
talked = record attempt { member_channel = some leg }

talked-IsOpen : IsOpen queue (pos 3) leg talked
unfolding talked result lookup
talked-IsOpen = record {
  asked = refl;
  there = refl;
  no_result = refl;
  queue_map = (refl, tt);
  stats_map = (refl, tt);
}

abbrev callback : AttemptCallback
callback = record {
  status = "sold";
  next_call_at = none;
  expire_at = none;
  description = "";
  display = false;
  variables = [];
  sticky_agent_id = none;
  exclude_current_communication = none;
  redial = none;
  add_communications = [];
  wait_between_retries = none;
  only_current_communication = none;
}

abbrev answers_success : Effect → Option FlowResult
answers_success req = some (FlowResult.success none)

abbrev talked_world : World
talked_world = record { attempt = talked; effects = [] }

talked-queue : talked.queue ≡ some queue
unfolding talked
talked-queue = refl

after_distribute_schema-told_result_example :
    (scope : Option (String × String)) × (vars : StringMap) × ((after_distribute_schema
        answers_success
        (pos 5000)
        talked_world).0.effects
      ≡ Effect.result_schema (pos 3) scope vars ∷ [])
    × (lookup "cc_result" vars ≡ some (told_result talked.agent_channel leg))
after_distribute_schema-told_result_example =
    after_distribute_schema-told_result answers_success (pos 5000) queue (pos 3) leg talked_world
      talked-queue talked-IsOpen

apply_callback_rules_example :
    let (u, merged) = apply_callback_rules answers_success (pos 5000) callback calling in
    Applied callback calling u merged
apply_callback_rules_example = apply_callback_rules_lem answers_success (pos 5000) callback calling

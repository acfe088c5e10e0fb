-- ===== src/Queue/Base.antt =====
-- queue/queue.go: the queue object that the manager builds from a queue's settings.
use call_center.Prelude.{
  ℕ, String, Option, none, some, List, [], ◌∷◌, Bool, false, not, ◌==◌, if◌then◌else◌, ◌==s◌,
  string_key,
}
use call_center.Prelude.Int.{ℤ, ◌==ℤ◌}
use call_center.Prelude.Fmt.{show_int}
use call_center.Prelude.StringMap.{lookup, insert, delete}
use call_center.Model.Maps.{StringMap}
use call_center.Model.Media.{ringtone_uri}
use call_center.Model.Queue.{Queue, queue_channel}
use call_center.Queue.State.{BaseQueue}

abbrev type_names : List (ℕ × String)
type_names =
    (0, "offline")
    ∷ (1, "inbound")
    ∷ (2, "ivr")
    ∷ (3, "preview")
    ∷ (4, "progressive")
    ∷ (5, "predictive")
    ∷ (6, "inbound chat")
    ∷ (7, "task")
    ∷ (8, "outbound_task")
    ∷ (9, "im")
    ∷ (10, "outbound_call")
    ∷ []

name_of : ℕ → List (ℕ × String) → String
name_of n [] = "NOT_IMPLEMENT"
name_of n ((k, name) ∷ names) = if n == k then name else name_of n names

unfoldable pub type_name : BaseQueue → String
unfolding name_of
type_name q = name_of q.type_id type_names

-- `NewHookHub`: a later hook of an event replaces an earlier one.
add_hooks : List (String × ℕ) → List (String × ℕ) → List (String × ℕ)
unfolding insert
add_hooks hub [] = hub
add_hooks hub ((event, schema) ∷ hooks) = add_hooks (insert event schema hub) hooks

unfoldable pub new_hook_hub : List (String × ℕ) → List (String × ℕ)
unfolding add_hooks
new_hook_hub hooks = add_hooks [] hooks

-- The address of the ringtone, if both of its fields are there.
unfoldable pub ringtone_of : Queue → Option String
unfolding ringtone_uri
ringtone_of s = elim s.ringtone_id [
  | none ↦ none
  | some id ↦ elim s.ringtone_type [
    | none ↦ none
    | some mime ↦ some (ringtone_uri s.domain_id id mime)
  ]
]

-- The variables with the grantee: none is the panic of a write into a nil map.
unfoldable pub with_grantee : Queue → Option StringMap
unfolding insert show_int
with_grantee s = elim s.grantee_id [
  | none ↦ elim s.variables [ none ↦ some [] | some vars ↦ some vars ]
  | some id ↦ elim s.variables [
    | none ↦ none
    | some vars ↦ some (insert "wbt_grantee_id" (show_int id) vars)
  ]
]

abbrev base_queue : StringMap → Queue → BaseQueue
unfolding queue_channel new_hook_hub ringtone_of
base_queue variables s = record {
  channel = queue_channel s;
  id = s.id;
  updated_at = s.updated_at;
  domain_id = s.domain_id;
  name = s.name;
  variables = variables;
  after_schema_id = s.after_schema_id;
  form_schema_id = s.form_schema_id;
  processing = s.processing;
  processing_sec = s.processing_sec;
  processing_renewal_sec = s.processing_renewal_sec;
  endless = s.endless;
  hooks = new_hook_hub s.hooks;
  prolongation_steps = s.prolongation_repeats;
  is_prolongation_enabled = s.is_prolongation_enabled;
  prolongation_sec = s.prolongation_sec;
  processing_autosave = s.processing_autosave;
  type_id = s.type;
  is_prolongation_timeout_retry = s.is_prolongation_timeout_retry;
  ringtone_uri = ringtone_of s;
  team_id = s.team_id;
}

unfoldable pub new_base_queue : Queue → Option BaseQueue
unfolding base_queue with_grantee
new_base_queue s = elim (with_grantee s) [ none ↦ none | some vars ↦ some (base_queue vars s) ]

unfoldable pub queue_expired : ℤ → BaseQueue → Bool
queue_expired updated_at q = not (q.updated_at ==ℤ updated_at)

-- `HasForm`
unfoldable pub has_form : BaseQueue → Bool
has_form q = elim q.form_schema_id [ none ↦ false | some id ↦ q.processing ]

unfoldable pub set_variable : String → String → BaseQueue → BaseQueue
unfolding insert
set_variable name val q = record q { variables = insert name val q.variables }

unfoldable pub queue_variable : String → BaseQueue → String
unfolding lookup
queue_variable name q = elim (lookup name q.variables) [ none ↦ "" | some v ↦ v ]

unfoldable pub queue_ringtone : BaseQueue → String
queue_ringtone q = elim q.ringtone_uri [ none ↦ "" | some uri ↦ uri ]

-- `AutoAnswer`, `AutoAnswerValue` and `DelVariable`.
unfoldable pub auto_answer : BaseQueue → Bool
unfolding lookup
auto_answer q = elim (lookup "wbt_auto_answer" q.variables) [
  | none ↦ false
  | some v ↦ not (v ==s "false")
]

unfoldable pub auto_answer_value : BaseQueue → Option String
unfolding lookup
auto_answer_value q = lookup "wbt_auto_answer" q.variables

unfoldable pub del_variable : String → BaseQueue → BaseQueue
unfolding delete
del_variable name q = record q { variables = delete name q.variables }

-- ===== src/Queue/Attempt/Variables.antt =====
-- queue/attempt.go: the variables of a member, the fields of a form, and the maps that are made of
-- them for a flow and for an agent's client.
use Prim.Native.String.{◌++◌ as text_append}
use text.Mathlib.Text.{starts_with}
use call_center.Prelude.{
  String, Option, none, some, [], ◌∷◌, Bool, not, ◌&&◌, if◌then◌else◌, ◌==s◌, string_key,
}
use call_center.Prelude.Int.{ℤ, pos, negsuc, ◌+ℤ◌, ltb_ℤ, int64}
use call_center.Prelude.Fmt.{show_int}
use call_center.Prelude.StringMap.{lookup, insert, delete}
use call_center.Model.Maps.{StringMap, union_string_maps}
use call_center.Model.Agent.{Agent}
use call_center.Model.Member.{AttemptCallback}
use call_center.AgentManager.Agent.{user_id, call_number, insert_some}
use call_center.Queue.State.{Attempt, BaseQueue, Channel}
use call_center.Queue.Attempt.{result, member_stop_cause}

-- `maps.Copy`
unfoldable pub copy_into : StringMap → StringMap → StringMap
unfolding insert
copy_into dst [] = dst
copy_into dst ((k, v) ∷ src) = copy_into (insert k v dst) src

abbrev pub or_empty : Option StringMap → StringMap
or_empty none = []
or_empty (some m) = m

unfoldable pub get_variable : String → Attempt → Option String
unfolding lookup
get_variable name a = lookup name (or_empty a.member.variables)

unfoldable pub add_variables : StringMap → Attempt → Attempt
unfolding copy_into
add_variables vars a = record a {
  member = record a.member { variables = some (copy_into (or_empty a.member.variables) vars) };
}

unfoldable pub remove_variable : String → Attempt → Attempt
unfolding delete
remove_variable name a = elim a.member.variables [
  | none ↦ a
  | some m ↦ record a { member = record a.member { variables = some (delete name m) } }
]

unfoldable pub update_processing_fields : StringMap → Attempt → Attempt
unfolding copy_into
update_processing_fields fields a = record a {
  processing_fields = copy_into a.processing_fields fields;
}

unfoldable pub processing_fields : Attempt → StringMap
processing_fields a = if a.processing_form_started then a.processing_fields else []

abbrev pub queue_channel_call : String
queue_channel_call = "call"

abbrev pub exported_name : String → String → String
exported_name channel k =
    if (channel ==s queue_channel_call)
      && not (starts_with k "sip_h_")
      && not (starts_with k "wbt_")
    then text_append "usr_" k
    else k

unfoldable pub export_names : String → StringMap → StringMap → StringMap
unfolding insert
export_names channel dst [] = dst
export_names channel dst ((k, v) ∷ src) =
    export_names channel (insert (exported_name channel k) v dst) src

abbrev pub insert_int : String → Option ℤ → StringMap → StringMap
insert_int k none m = m
insert_int k (some i) m = insert k (show_int i) m

unfoldable pub export_variables : Attempt → StringMap
unfolding export_names show_int insert
export_variables a =
    insert_int "cc_attempt_seq" a.member.seq
      (export_names a.channel [] (or_empty a.member.variables))

abbrev pub insert_if : Bool → String → String → StringMap → StringMap
insert_if c k v m = if c then insert k v m else m

abbrev pub insert_text : String → String → StringMap → StringMap
insert_text k v m = if v ==s "" then m else insert k v m

abbrev callback_variables : Option AttemptCallback → StringMap
callback_variables none = []
callback_variables (some cb) = cb.variables

abbrev callback_description : Option AttemptCallback → String
callback_description none = ""
callback_description (some cb) = cb.description

abbrev agent_channel_id : Option Channel → Option String
agent_channel_id none = none
agent_channel_id (some c) = some c.id

-- The member's channel adds its id and its statistics; the union drops what is empty.
abbrev pub with_member_channel : Option Channel → StringMap → StringMap
with_member_channel none m = m
with_member_channel (some c) m =
    union_string_maps (insert "member_channel_id" c.id m ∷ c.stats ∷ [])

abbrev pub with_queue : Option BaseQueue → StringMap → StringMap
with_queue none m = m
with_queue (some q) m =
    insert "queue_name" q.name
      (insert_if q.processing "use_processing" "true" (insert "queue_id" (show_int q.id) m))

abbrev pub with_agent : Option Agent → StringMap → StringMap
with_agent none m = m
with_agent (some g) m = insert "agent_extension" (call_number g) (
    insert "user_id" (show_int (user_id g))
      (insert "agent_id" (show_int g.id) (insert "agent_name" g.name m)))

-- `ExportSchemaVariables`, in three parts: the maps, the member with its communication, the rest.
unfoldable pub schema_maps : Attempt → StringMap
unfolding copy_into processing_fields
schema_maps a =
    copy_into (copy_into (copy_into [] (or_empty a.member.variables)) (callback_variables a.result))
      (processing_fields a)

unfoldable pub with_member : ℤ → Attempt → StringMap → StringMap
unfolding insert show_int int64 ◌+ℤ◌
with_member now a m0 =
    let m1 = insert_int "cc_attempt_seq" a.member.seq m0 in
    let m2 = insert_some "member_timezone" a.member.timezone m1 in
    let m3 = insert "destination" a.communication.destination m2 in
    let m4 = insert "attempt_id" (show_int a.member.id) m3 in
    let m5 = insert "timestamp" (show_int now) m4 in
    let m6 = insert "joined_at" (show_int a.member.created_at) m5 in
    let m7 = insert_if (ltb_ℤ (pos 0) a.bridged_at) "bridged_at" (show_int a.bridged_at) m6 in
    let m8 = insert_text "destination_description" a.communication.description m7 in
    let m9 =
      insert_if (ltb_ℤ (pos 0) a.communication.type.id) "destination_type"
        (show_int a.communication.type.id) m8 in
    let m10 =
      insert_if (ltb_ℤ (negsuc 0) a.communication.attempts) "destination_seq"
        (show_int (int64 (a.communication.attempts +ℤ pos 1))) m9 in
    let m11 = insert_text "agent_description" (callback_description a.result) m10 in
    let m12 = insert_text "member_name" a.member.name m11 in
    let m13 = insert_int "member_id" a.member.member_id m12 in
    insert_int "bucket_id" a.member.bucket_id m13

unfoldable pub with_objects : Attempt → StringMap → StringMap
unfolding insert show_int union_string_maps user_id call_number result member_stop_cause
with_objects a m0 =
    let m1 = insert_some "agent_channel_id" (agent_channel_id a.agent_channel) m0 in
    let m2 = with_member_channel a.member_channel m1 in
    let m3 = insert_text "member_stop_cause" (member_stop_cause a) m2 in
    let m4 = insert_text "cc_result" (result a) m3 in
    let m5 = insert_int "cc_resource_id" a.member.resource_id m4 in
    let m6 = insert_int "communication_id" a.member.communication_idx m5 in
    with_agent a.agent (with_queue a.queue m6)

unfoldable pub export_schema_variables : ℤ → Attempt → StringMap
unfolding schema_maps with_member with_objects
export_schema_variables now a = with_objects a (with_member now a (schema_maps a))

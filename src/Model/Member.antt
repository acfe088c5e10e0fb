-- ===== src/Model/Member.antt =====
-- model/member.go: the data of an attempt, the result of its form, and what the flow answers.
use call_center.Prelude.{ℕ, String, Option, none, some, List, Bool, false, ◌==s◌}
use call_center.Prelude.Int.{ℤ}
use call_center.Model.Maps.{StringMap}

pub record Communication : Type 0 where
  pub id : ℤ
  pub name : String
  pub channel : Option String

-- The thread of a mail, which is raw JSON, is left out.
pub record MemberCommunication : Type 0 where
  pub destination : String
  pub type : Communication
  pub priority : ℤ
  pub display : Option String
  pub description : String
  pub attempts : ℤ
  pub dtmf : Option String

-- Times are milliseconds; a nil map reads as an empty one.
pub record AttemptCallback : Type 0 where
  pub status : String
  pub next_call_at : Option ℤ
  pub expire_at : Option ℤ
  pub description : String
  pub display : Bool
  pub variables : StringMap
  pub sticky_agent_id : Option ℤ
  pub exclude_current_communication : Option Bool
  pub redial : Option Bool
  pub add_communications : List MemberCommunication
  pub wait_between_retries : Option ℤ
  pub only_current_communication : Option Bool

pub data SchemaResultType : Type 0 where
  success abandoned retry : SchemaResultType

-- The map is an option, since a nil one is told from an empty one.
pub record SchemaResult : Type 0 where
  pub type : SchemaResultType
  pub status : String
  pub max_attempts : ℕ
  pub wait_between_retries : ℕ
  pub exclude_current_number : Bool
  pub redial : Bool
  pub variables : Option StringMap
  pub agent_id : ℤ
  pub display : Bool
  pub description : String
  pub retry_sleep : ℤ
  pub retry_next_resource : Bool
  pub retry_resource_id : ℤ

-- `MemberAttempt`, without the counters of the queue, which nothing in the attempt reads.
-- `created_at` is in milliseconds.
pub record MemberAttempt : Type 0 where
  pub id : ℤ
  pub queue_id : ℤ
  pub queue_updated_at : ℤ
  pub seq : Option ℤ
  pub communication_idx : Option ℤ
  pub member_id : Option ℤ
  pub created_at : ℤ
  pub resource_id : Option ℤ
  pub resource_updated_at : Option ℤ
  pub gateway_updated_at : Option ℤ
  pub result : Option String
  pub destination : List ℕ
  pub list_communication_id : Option ℤ
  pub agent_id : Option ℤ
  pub agent_updated_at : Option ℤ
  pub team_updated_at : Option ℤ
  pub variables : Option StringMap
  pub name : String
  pub member_call_id : Option String
  pub timezone : Option String
  pub bucket_id : Option ℤ
  pub block_all_member_numbers_from_list : Bool

pub record AttemptFlipResource : Type 0 where
  pub resource_id : Option ℤ
  pub resource_updated_at : Option ℤ
  pub gateway_updated_at : Option ℤ
  pub allow_call : Option Bool
  pub call_id : Option String

-- `CALL_HANGUP_TIMEOUT`
abbrev pub call_hangup_timeout : String
call_hangup_timeout = "TIMEOUT"

unfoldable pub is_timeout : MemberAttempt → Bool
is_timeout m = elim m.result [ none ↦ false | some r ↦ r ==s call_hangup_timeout ]

-- ===== src/Model/Call.antt =====
-- model/call.go: the request for a call, and the events that FreeSWITCH reports of it.
use call_center.Prelude.{ℕ, String, Option, none, some, List, Bool}
use call_center.Prelude.Int.{ℤ}
use call_center.Model.Maps.{StringMap}

pub record CallAction : Type 0 where
  pub id : String
  pub app_id : String
  pub domain_id : ℤ
  pub timestamp : ℤ
  pub event : String

pub record CallEndpoint : Type 0 where
  pub kind : String  -- `Type`
  pub id : String
  pub number : String
  pub name : String

pub record CallActionInfo : Type 0 where
  pub gateway_id : Option ℤ
  pub user_id : Option ℤ
  pub direction : String
  pub destination : String
  pub from : Option CallEndpoint
  pub to : Option CallEndpoint
  pub parent_id : Option String
  pub payload : Option StringMap

pub record CallActionRinging : Type 0 where
  pub action : CallAction
  pub info : CallActionInfo

pub record CallActionBridge : Type 0 where
  pub action : CallAction
  pub bridged_id : String

-- A value of type `any` in `variables` is kept as the text that `%v` prints of it.
pub record CallActionHangup : Type 0 where
  pub action : CallAction
  pub cause : String
  pub sip_code : Option ℤ
  pub origin_success : Option Bool
  pub reporting_at : Option ℤ
  pub transfer_to : Option String
  pub transfer_from : Option String
  pub transfer_to_agent : Option ℤ
  pub transfer_from_attempt : Option ℤ
  pub transfer_to_attempt : Option ℤ
  pub variables : StringMap

pub record AmdAiResult : Type 0 where
  pub result : String
  pub error : String

pub record CallActionAmd : Type 0 where
  pub action : CallAction
  pub amd_ai_result : AmdAiResult
  pub result : String
  pub cause : String

-- The parsed event: what `GetEvent` returns. The JSON text is parsed by encoding/json.
pub data CallEvent : Type 0 where
  ringing : CallActionRinging → CallEvent
  progress active hold : CallAction → CallEvent
  bridge : CallActionBridge → CallEvent
  hangup : CallActionHangup → CallEvent
  amd : CallActionAmd → CallEvent
  unknown : CallEvent

pub record CallRequestApplication : Type 0 where
  pub app_name : String
  pub args : String

pub record CallRequest : Type 0 where
  pub id : Option String
  pub endpoints : List String
  pub strategy : ℕ
  pub destination : String
  pub variables : Option StringMap  -- a nil map is `none`
  pub timeout : ℕ
  pub caller_name : String
  pub caller_number : String
  pub dialplan : String
  pub context : String
  pub applications : List CallRequestApplication
  pub check_parent_id : String
  pub origination_number : String

unfoldable pub origination_number_safe : Option CallRequest → String
origination_number_safe none = ""
origination_number_safe (some cr) = cr.origination_number

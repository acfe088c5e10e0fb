-- ===== src/Model/Resource.antt =====
-- model/resource.go: an outbound resource as the store holds it, and the gateway it dials through.
use call_center.Prelude.{
  ℕ, String, Option, none, some, List, [], Bool, true, false, if◌then◌else◌, ◌==s◌, string_key,
}
use call_center.Prelude.Int.{ℤ}
use call_center.Prelude.StringMap.{insert}
use call_center.Model.Maps.{StringMap}

-- A text that the code takes apart is the list of its runes.
abbrev pub Runes : Type 0
Runes = List ℕ

pub record OutboundResourceParameters : Type 0 where
  pub sip_cid_type : String
  pub ignore_early_media : String

-- `OutboundResource`, as far as a `Resource` is made of it; `variables` are the texts that `%v`
-- gives of the values in the JSON document.
pub record OutboundResource : Type 0 where
  pub id : ℤ
  pub name : String
  pub rps : ℕ
  pub updated_at : ℤ
  pub variables : StringMap
  pub display_numbers : List String
  pub successively_errors : ℕ
  pub max_successively_errors : ℕ
  pub error_ids : Option (List Runes)
  pub gateway_id : ℤ
  pub parameters : OutboundResourceParameters

pub record SipGateway : Type 0 where
  pub id : ℤ
  pub name : String
  pub updated_at : ℤ
  pub register : Bool
  pub proxy : String
  pub host_name : Option String
  pub user_name : Option String
  pub account : Option String
  pub password : Option String
  pub domain_id : ℤ
  pub use_bridge_answer_timeout : Bool
  pub sip_cid_type : String
  pub ignore_early_media : String

abbrev domain_variable : Option String → StringMap → StringMap
domain_variable (some h) m = insert "sip_invite_domain" h m
domain_variable none m = m

-- The credentials, if the gateway registers and has all three, else the domain.
abbrev auth_variables :
    Bool → Option String → Option String → Option String → Option String → StringMap → StringMap
auth_variables true (some u) (some p) (some a) host m =
    insert "sip_from_uri" a (insert "sip_auth_password" p (insert "sip_auth_username" u m))
auth_variables true (some u) (some p) none host m = domain_variable host m
auth_variables true (some u) none account host m = domain_variable host m
auth_variables true none password account host m = domain_variable host m
auth_variables false user password account host m = domain_variable host m

unless_empty : String → String → StringMap → StringMap
unless_empty key v m = if v ==s "" then m else insert key v m

unfoldable pub gateway_variables : SipGateway → StringMap
unfolding insert unless_empty
gateway_variables g = unless_empty "ignore_early_media" g.ignore_early_media (
    unless_empty "sip_cid_type" g.sip_cid_type (
      auth_variables g.register g.user_name g.password g.account g.host_name
        (insert "sip_h_X-Webitel-Direction" "outbound" [])))

-- `OutboundResourceErrorResult`
pub record ResourceErrorResult : Type 0 where
  pub count_successively_error : Option ℤ
  pub stopped : Option Bool
  pub un_reserve_resource_id : Option ℤ

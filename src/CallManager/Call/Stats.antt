-- ===== src/CallManager/Call/Stats.antt =====
-- call_manager/call.go, `Stats`: the variables that a call exports when it is over.
use call_center.Prelude.{String, [], ◌∷◌, Bool, true, false, not, if◌then◌else◌, ◌==s◌, string_key}
use call_center.Prelude.Int.{ℤ, pos, ◌-ℤ◌, ◌==ℤ◌, ltb_ℤ, int64, quot}
use call_center.Prelude.Fmt.{show_int}
use call_center.Prelude.StringMap.{insert}
use call_center.Model.Maps.{StringMap}
use call_center.Model.Call.{origination_number_safe}
use call_center.CallManager.State.{Call}
use call_center.CallManager.Call.{hangup_cause, hangup_cause_code}
use call_center.CallManager.Call.Timing.{bill_seconds, duration_seconds}

-- `vars[k] = …` for each of the variables of the end of the call.
export_all : StringMap → StringMap → StringMap
export_all vars [] = vars
export_all vars ((k, v) ∷ m) = export_all (insert k v vars) m

insert_if : Bool → String → String → StringMap → StringMap
insert_if true k v m = insert k v m
insert_if false k v m = m

-- The time of the answer, or else of the bridge.
voice_start : Call → ℤ
voice_start c = if not (c.accept_at ==ℤ pos 0) then c.accept_at else c.bridge_at

voice_seconds : ℤ → Call → ℤ
voice_seconds now c =
    quot (int64 ((if c.hangup_at ==ℤ pos 0 then now else c.hangup_at) -ℤ voice_start c)) 1000

unfoldable pub stats : ℤ → Call → StringMap
unfolding export_all insert_if voice_start voice_seconds
stats now c =
    let base = insert "call_cause" (hangup_cause c) (
      insert "call_duration" (show_int (duration_seconds now c))
        (insert "call_bill_sec" (show_int (bill_seconds now c)) [])) in
    let exported = export_all base c.variables in
    let coded =
      insert_if (ltb_ℤ (pos 0) (hangup_cause_code c)) "call_sip_code"
        (show_int (hangup_cause_code c)) exported in
    let amd = insert_if (not (c.amd_result ==s "")) "amd_result" c.amd_result coded in
    let ai =
      insert_if (not (c.amd_ai_result.result ==s "")) "amd_ai_result" c.amd_ai_result.result amd in
    let number = origination_number_safe c.call_request in
    let from = insert_if (not (number ==s "")) "origination_caller_id_number" number ai in
    insert_if (ltb_ℤ (pos 0) (voice_start c)) "call_voice_sec" (show_int (voice_seconds now c)) from

-- ===== src/CallManager/Call/Media.antt =====
-- call_manager/call.go: the methods of a call that only send a command to FreeSWITCH, and those for
-- playback, recording and the bridge of two calls.
use Prim.Native.String.{◌++◌}
use mathlib.Core.List
use call_center.Prelude.{
  ℕ, String, Option, none, some, [], ◌∷◌, ◌==◌, Bool, true, false, not, ◌||◌, if◌then◌else◌, ◌==s◌,
  string_key,
}
use call_center.Prelude.Int.{ℤ, pos}
use call_center.Prelude.Fmt.{show_int, show_nat}
use call_center.Prelude.StringMap.{insert, lookup}
use call_center.Model.{AppError}
use call_center.Model.Maps.{StringMap}
use call_center.Model.Media.{RingtoneFile, ringtone_uri, tone_list}
use call_center.Model.Call.{CallRequestApplication}
use call_center.CallManager.State.{
  Call, Command, Effect, Fault, M, ◌>>=◌, ◌>>◌, pure, fails, self, modify, emit, skip, hold_call,
  set_call_variables, bridge_call, dtmf, join_queue, broadcast_playback_file, stop_playback,
  update_cid, park_playback_file, break_park,
}
use call_center.CallManager.Call.{is_none, or_empty, hangup_cause}

abbrev err_bad_bridge_node : AppError
err_bad_bridge_node = record {
  id = "call.bridge.bad_request.node_difference";
  message = "call.bridge.bad_request.node_difference";
  detailed_error = "";
  status_code = pos 400;
  place = "Call";
}

abbrev err_bad_bridge_state : AppError
err_bad_bridge_state = record {
  id = "call.bridge.validate.state";
  message = "call.bridge.validate.state";
  detailed_error = "call is hangup";
  status_code = pos 400;
  place = "Call";
}

module _ (api : Command → Option AppError) where
  -- A command is sent, and its error returned.
  abbrev send : Command → M (Option AppError)
  send c = do emit (Effect.command c); pure (api c)

  unfoldable pub call_hold : M (Option AppError)
  call_hold = do c ← self; send (hold_call c.id)

  unfoldable pub call_dtmf : ℕ → M (Option AppError)
  call_dtmf val = do c ← self; send (dtmf c.id val)

  unfoldable pub call_stop_playback : M (Option AppError)
  call_stop_playback = do c ← self; send (stop_playback c.id)

  unfoldable pub call_break_park : StringMap → M (Option AppError)
  call_break_park vars = do c ← self; send (break_park c.id vars)

  unfoldable pub ser_variables : StringMap → M (Option AppError)
  ser_variables vars = do c ← self; send (set_call_variables c.id vars)

  unfoldable pub call_join_queue : String → String → StringMap → M (Option AppError)
  call_join_queue id file_path vars = send (join_queue id file_path vars)

  unfoldable pub call_update_cid : M (Option AppError)
  call_update_cid = do
    c ← self
    elim c.info.to [ none ↦ pure none | some to ↦ send (update_cid c.id to.number to.name) ]

  unfoldable pub set_other_channel_var : StringMap → M (Option AppError)
  set_other_channel_var vars = do
    c ← self
    elim c.bridged_id [ none ↦ pure none | some br ↦ send (set_call_variables br vars) ]

  -- `Bridge` with another call; only the time of this call is set.
  unfoldable pub call_bridge : ℤ → Call → M (Option AppError)
  call_bridge now other = do
    c ← self
    if not (c.api_name ==s other.api_name)
        then pure (some err_bad_bridge_node)
        else if not (hangup_cause other ==s "") || not (hangup_cause c ==s "")
        then pure (some err_bad_bridge_state)
        else (do
          err ← send (bridge_call other.id c.id "")
          if is_none err then modify (λ d. record d { bridge_at = now }) else skip
          pure err)

  unfoldable pub call_broadcast_playback_file :
      ℤ → Option RingtoneFile → String → M (Option AppError)
  unfolding ringtone_uri
  call_broadcast_playback_file domain_id none leg = pure none
  call_broadcast_playback_file domain_id (some file) leg = do
    c ← self
    send (broadcast_playback_file c.id (ringtone_uri domain_id file.id file.mime) leg)

  unfoldable pub call_park_playback_file : ℤ → Option RingtoneFile → String → M (Option AppError)
  unfolding ringtone_uri
  call_park_playback_file domain_id none leg = pure none
  call_park_playback_file domain_id (some file) leg = do
    c ← self
    send (park_playback_file c.id (ringtone_uri domain_id file.id file.mime) leg)

  -- The stream of a tone; a name that the table does not have gives the empty text.
  unfoldable pub tone_of : Option String → String
  unfolding lookup
  tone_of none = "L=1;%(500,500,1000)"
  tone_of (some name) = elim (lookup name tone_list) [ none ↦ "" | some t ↦ t ]

  unfoldable pub broadcast_tone : Option String → String → M (Option AppError)
  unfolding tone_of
  broadcast_tone tone leg = do
    c ← self
    if tone_of tone ==s "" || tone_of tone ==s "none"
        then pure none
        else send (broadcast_playback_file c.id ("tone_stream://" ++ tone_of tone) leg)

  unfoldable pub broadcast_playback_silence_before_file :
      ℤ → ℕ → Option RingtoneFile → String → M (Option AppError)
  unfolding ringtone_uri show_nat
  broadcast_playback_silence_before_file domain_id silence none leg = pure none
  broadcast_playback_silence_before_file domain_id silence (some file) leg = do
    c ← self
    let uri = ringtone_uri domain_id file.id file.mime
    if silence == 0
        then send (broadcast_playback_file c.id uri leg)
        else send (
            broadcast_playback_file c.id
              ("file_string://silence_stream://" ++ show_nat silence ++ "!" ++ uri) leg)

-- `SetRecordings`: variables and an application of the request, through the pointer to it.
record_template : String
record_template =
    "${strepoch()}_${url_encode ${wbt_from_number}}_${url_encode ${wbt_destination}}.mp3"

yes_no : Bool → String
yes_no true = "true"
yes_no false = "false"

unfoldable pub set_recordings : ℤ → Bool → Bool → M (Unit {0})
unfolding record_template yes_no
set_recordings domain_id all mono = do
  c ← self
  elim c.call_request [
    | none ↦ fails Fault.nil_pointer
    | some r ↦
        (let vars = insert "RECORD_STEREO" (yes_no (not mono)) (
            insert "media_bug_answer_req" (yes_no (not all)) (
              insert "RECORD_BRIDGE_REQ" (yes_no (not all)) (
                insert "recording_follow_transfer" "true"
                  (insert "RECORD_MIN_SEC" "2" (or_empty r.variables))))) in
          let app : CallRequestApplication = record {
            app_name = "wbt_record_session";
            args =
                "http_cache://http://$${cdr_url}/sys/recordings?domain="
                ++ show_int domain_id
                ++ "&id="
                ++ c.id
                ++ "&name="
                ++ record_template
                ++ "&.mp3";
          } in
          modify (λ d. record d {
            call_request = some (record r {
              variables = some vars;
              applications = List.◌++◌ r.applications (app ∷ []);
            });
          }))
  ]

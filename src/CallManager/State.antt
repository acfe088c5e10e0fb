-- ===== src/CallManager/State.antt =====
-- call_manager/call.go: the state of a call, what its methods do outside of it, and how a method
-- ends. A method is a function of the call; what it sends to FreeSWITCH and to the manager's cache
-- is a list of effects, the latest first.
use call_center.Prelude.{ℕ, String, Option, List, ◌∷◌, Bool, ltb}
use call_center.Prelude.Int.{ℤ}
use call_center.Model.Maps.{StringMap}
use call_center.Model.Call.{CallRequest, CallAction, CallActionInfo, CallActionHangup, AmdAiResult}

pub data CallDirection : Type 0 where
  inbound outbound : CallDirection

pub data CallState : Type 0 where
  new invite ringing progress accept join leaving bridge hold detect_amd hangup : CallState

-- The number of a state: the constants count from 0.
abbrev pub state_number : CallState → ℕ
state_number new = 0
state_number invite = 1
state_number ringing = 2
state_number progress = 3
state_number accept = 4
state_number join = 5
state_number leaving = 6
state_number bridge = 7
state_number hold = 8
state_number detect_amd = 9
state_number hangup = 10

-- `s < t` on states.
abbrev pub before : CallState → CallState → Bool
before s t = ltb (state_number s) (state_number t)

unfoldable pub state_string : CallState → String
state_string new = "new"
state_string invite = "invite"
state_string ringing = "ringing"
state_string progress = "progress"
state_string accept = "accept"
state_string join = "join"
state_string leaving = "leaving"
state_string bridge = "bridge"
state_string hold = "hold"
state_string detect_amd = "amd"
state_string hangup = "hangup"

-- A `time.AfterFunc` timer: whether it will fire, and after how many seconds.
pub record Timer : Type 0 where
  pub running : Bool
  pub seconds : ℕ

abbrev pub ch_state_capacity : ℕ
ch_state_capacity = 5

-- `CallImpl`. The logger, the mutex and the channel of actions, which nothing creates, are left out;
-- of `api` there is the name, and `cm` is the manager that runs the methods.
pub record Call : Type 0 where
  pub call_request : Option CallRequest
  pub api_name : String
  pub direction : CallDirection
  pub id : String
  pub hangup_closed : Bool  -- `hangupCh` is closed
  pub state : CallState
  pub cancel : String
  pub ch_state : List CallState  -- sent and not yet received, the oldest first
  pub info : CallActionInfo
  pub hangup_event : Option CallActionHangup  -- `hangup`
  pub action : CallAction
  pub bridged_id : Option String
  pub ringing_at : ℤ
  pub accept_at : ℤ
  pub bridge_at : ℤ
  pub hangup_at : ℤ
  pub reporting_at : ℤ
  pub progress_at : ℤ
  pub transfer_to : Option String
  pub transfer_from : Option String
  pub transfer_to_agent_id : Option ℤ
  pub transfer_from_attempt_id : Option ℤ
  pub transfer_to_attempt_id : Option ℤ
  pub queue_id : Option ℤ
  pub amd_result : String
  pub amd_cause : String
  pub amd_ai_result : AmdAiResult
  pub variables : StringMap
  pub ring_timeout : Option Timer

-- The commands of model/call_comands.go that a call sends.
pub data Command : Type 0 where
  hangup_call : String → String → Bool → StringMap → Command
  hold_call : String → Command
  set_call_variables : String → StringMap → Command
  bridge_call : String → String → String → Command
  dtmf : String → ℕ → Command
  join_queue : String → String → StringMap → Command
  broadcast_playback_file : String → String → String → Command
  stop_playback : String → Command
  update_cid : String → String → String → Command
  park_playback_file : String → String → String → Command
  break_park : String → StringMap → Command

pub data Effect : Type 0 where
  command : Command → Effect
  originate : CallRequest → Effect  -- `api.NewCall` on a goroutine of its own
  save_to_cache : String → Effect
  remove_from_cache : String → Effect

-- How a method fails: a runtime panic, or a send on a full channel, which does not return until
-- somebody receives.
pub data Fault : Type 0 where
  close_of_closed_channel nil_pointer blocked_send : Fault

pub record World : Type 0 where
  pub call : Call
  pub effects : List Effect

pub data Outcome {ℓ} (A : Type ℓ) : Type ℓ where
  done : A → World → Outcome A
  fault : Fault → Outcome A

abbrev pub M : Type 0 → Type 0
M A = World → Outcome A

infixl 5 ◌>>=◌ ◌>>◌
abbrev pub ◌>>=◌ : {A B : Type 0} → M A → (A → M B) → M B
◌>>=◌ m f w = elim (m w) [ done a w' ↦ f a w' | fault e ↦ fault e ]

abbrev pub ◌>>◌ : {B : Type 0} → M (Unit {0}) → M B → M B
m >> k = m >>= λ _. k

abbrev pub pure : {A : Type 0} → A → M A
pure a w = done a w

abbrev pub fails : {A : Type 0} → Fault → M A
fails e w = fault e

abbrev pub self : M Call
self w = done w.call w

abbrev pub modify : (Call → Call) → M (Unit {0})
modify f w = done tt (record w { call = f w.call })

abbrev pub emit : Effect → M (Unit {0})
emit e w = done tt (record w { effects = e ∷ w.effects })

abbrev pub skip : M (Unit {0})
skip w = done tt w

-- The method returns, and then this holds of its result and the world.
abbrev pub Returns {ℓ} : {A : Type ℓ} → (A → World → Type 0) → Outcome A → Type 0
Returns P (done a w) = P a w
Returns P (fault f) = ⊥

-- If the method returns, this holds of the world.
abbrev pub OnDone {ℓ κ} : {A : Type ℓ} → (World → Type κ) → Outcome A → Type κ
OnDone P (done a w) = P w
OnDone P (fault f) = Unit

-- ===== src/CallManager/Manager/Register.antt =====
-- call_manager/call_manager.go, `registerConnection`, `wakeUp`, `RingtoneUri`, `CountConnection` and
-- `Ready`. The discovery, its pool and the client of a server are parameters.
use Prim.Native.String.{◌++◌}
use call_center.Prelude.{
  ℕ, ◌+◌, String, Option, none, some, List, [], ◌∷◌, Bool, true, false, if◌then◌else◌, ◌==s◌, ◌||◌,
  ◌⊎◌, inl, inr, length, ◌≡◌, arith,
}
use call_center.Prelude.Int.{ℤ}
use call_center.Prelude.Fmt.{show_int}
use call_center.CallManager.Manager.{Manager}

-- What a new client answers to the requests of the registration: an error's text, or the answer.
pub record Client : Type 0 where
  pub created : Option String  -- the error of `NewCallConnection`
  pub version : String ⊎ String
  pub sps : String ⊎ ℤ
  pub cdr_uri : String ⊎ String
  pub proxy : String ⊎ String
  pub socket_uri : String ⊎ String

-- The manager's own addresses, and whether the client was appended to the pool.
abbrev set_cdr : String → Manager → Manager
set_cdr cdr s = if s.cdr ==s "" then record s { cdr = cdr } else s

register_flow : Client → Manager → Manager × Bool
register_flow cl s =
    if s.flow_socket_uri ==s ""
    then elim cl.socket_uri [
      | inl e ↦ (record s { flow_socket_uri = "" }, false)
      | inr uri ↦ (record s { flow_socket_uri = uri }, true)
    ]
    else (s, true)

-- The proxy is assigned before its error is read: an error makes it empty.
register_proxy : Client → Manager → Manager × Bool
unfolding register_flow
register_proxy cl s = elim cl.proxy [
  | inl e ↦ (record s { proxy = "" }, false)
  | inr proxy ↦ register_flow cl (record s { proxy = proxy })
]

register_cdr : Client → Manager → Manager × Bool
unfolding register_proxy
register_cdr cl s = elim cl.cdr_uri [
  | inl e ↦ (s, false)
  | inr cdr ↦ register_proxy cl (set_cdr cdr s)
]

unfoldable pub register_connection : Client → Manager → Manager × Bool
unfolding register_cdr
register_connection cl s = elim cl.created [
  | some e ↦ (s, false)
  | none ↦ elim cl.version [
    | inl e ↦ (s, false)
    | inr version ↦ elim cl.sps [ inl e ↦ (s, false) | inr sps ↦ register_cdr cl s ]
  ]
]

unfoldable pub ringtone_uri : String → ℤ → ℤ → String → String
unfolding show_int
ringtone_uri cdr domain_id id mime =
    let path = cdr ++ "/sys/media/" ++ show_int id ++ "/stream?domain_id=" ++ show_int domain_id in
    if mime ==s "audio/mp3" || mime ==s "audio/mpeg"
    then "shout://" ++ path ++ "&.mp3"
    else if mime ==s "audio/wav"
    then "http_cache://http://" ++ path ++ "&.wav"
    else ""

unfoldable pub get_flow_uri : Manager → String
get_flow_uri s = "socket " ++ s.flow_socket_uri

-- `ErrNoConnection` and `ErrNotReady`.
pub data NotReady : Type 0 where
  err_no_connection err_not_ready : NotReady

-- A connection of the pool: none for nil, or whether it is ready.
any_ready : List (Option Bool) → Bool
any_ready [] = false
any_ready (none ∷ conns) = any_ready conns
any_ready (some b ∷ conns) = let rest = any_ready conns in if b then true else rest

unfoldable pub ready : List (Option Bool) → Option NotReady
unfolding any_ready
ready [] = some NotReady.err_no_connection
ready (c ∷ conns) = if any_ready (c ∷ conns) then none else some NotReady.err_not_ready

unfoldable pub count_connection : List (Option Bool) → ℕ
count_connection conns = length conns

-- `wakeUp`: each service of the discovery that the pool does not know is registered. `found` is what
-- `GetById` tells when as many clients were appended, and `client` the new client of a service.
unfoldable pub wake_up :
    (ℕ → String → Bool) → (String → Client) → List String → ℕ → Manager → Manager × ℕ
unfolding register_connection
wake_up found client [] appended s = (s, appended)
wake_up found client (id ∷ ids) appended s =
    if found appended id
    then wake_up found client ids appended s
    else let (u, there) = register_connection (client id) s in
      wake_up found client ids (if there then appended + 1 else appended) u

-- A registration leaves the calls as they are.
pub record SameCalls (s u : Manager) : Type 0 where
  pub same_calls : u.calls ≡ s.calls
  pub same_heap : u.heap ≡ s.heap
  pub same_next : u.next ≡ s.next

pub register_connection-SameCalls :
    (client : Client) (s : Manager) → SameCalls s (register_connection client s).0
unfolding register_connection register_cdr register_proxy register_flow
register_connection-SameCalls client s = ground arith

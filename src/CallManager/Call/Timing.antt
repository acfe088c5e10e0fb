-- ===== src/CallManager/Call/Timing.antt =====
-- call_manager/call.go: the durations of a call, in whole seconds, from its times in milliseconds.
use call_center.Prelude.{ℕ, ◌+◌, ◌-◌, ◌/◌, ◌^◌, ◌≤◌, ◌<◌, ◌≡◌, refl, Bool, if◌then◌else◌, arith}
use call_center.Prelude.Int.{ℤ, pos, ◌-ℤ◌, ltb_ℤ, int64, int64_id, quot}
use call_center.CallManager.State.{Call}

abbrev is_positive : ℤ → Bool
is_positive z = ltb_ℤ (pos 0) z

-- `int(later - earlier) / 1000`.
unfoldable pub seconds_between : ℤ → ℤ → ℤ
seconds_between later earlier = quot (int64 (later -ℤ earlier)) 1000

unfoldable pub duration_seconds : ℤ → Call → ℤ
duration_seconds now c =
    seconds_between (if is_positive c.hangup_at then c.hangup_at else now) c.ringing_at

unfoldable pub bill_seconds : ℤ → Call → ℤ
bill_seconds now c =
    if is_positive c.bridge_at
    then seconds_between (if is_positive c.hangup_at then c.hangup_at else now) c.bridge_at
    else pos 0

unfoldable pub answer_seconds : Call → ℤ
answer_seconds c =
    if is_positive c.accept_at then seconds_between c.accept_at c.ringing_at else pos 0

unfoldable pub wait_seconds : ℤ → Call → ℤ
wait_seconds now c =
    seconds_between (if is_positive c.bridge_at then c.bridge_at else now) c.ringing_at

unfoldable pub answered : Call → Bool
answered c = is_positive c.accept_at

-- Two times in order, in the range of an int64.
seconds_between_pos :
    (later earlier : ℕ)
    → earlier ≤ later
    → later < 2 ^ 63
    → seconds_between (pos later) (pos earlier) ≡ pos ((later - earlier) / 1000)
unfolding seconds_between ◌-ℤ◌
seconds_between_pos later earlier h k =
    let same : pos later -ℤ pos earlier ≡ pos (later - earlier) = ground arith in
    rw (same, int64_id (pos (later - earlier)) (omega arith) (omega arith)) (unfold quot in refl)

-- The times of a call that rang, was bridged and ended, in this order.
pub record InOrder (c : Call) (ring bridge hangup : ℕ) : Type 0 where
  pub rang : c.ringing_at ≡ pos ring
  pub bridged : c.bridge_at ≡ pos bridge
  pub ended : c.hangup_at ≡ pos hangup
  pub positive : 0 < bridge
  pub ring_first : ring ≤ bridge
  pub bridge_first : bridge ≤ hangup
  pub in_range : hangup < 2 ^ 63

-- For a call that rang, was bridged and ended in this order, the durations are those of its times,
-- and the waiting and the billed seconds make up its duration, but for at most one second that the
-- two roundings lose.
pub wait-bill-duration :
    (now : ℤ) (c : Call) (ring bridge hangup : ℕ)
    → InOrder c ring bridge hangup
    → (w b d : ℕ) × (wait_seconds now c ≡ pos w)
      × (bill_seconds now c ≡ pos b)
      × (duration_seconds now c ≡ pos d)
      × (w + b ≤ d)
      × (d ≤ w + b + 1)
unfolding wait_seconds bill_seconds duration_seconds
wait-bill-duration now c ring bridge hangup o = (
  (bridge - ring) / 1000,
  (hangup - bridge) / 1000,
  (hangup - ring) / 1000,
  ground (arith, seconds_between_pos bridge ring),
  ground (arith, seconds_between_pos hangup bridge),
  ground (arith, seconds_between_pos hangup ring),
  omega (arith, o),
  omega (arith, o),
)

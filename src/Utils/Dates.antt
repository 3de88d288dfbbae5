-- ===== src/Utils/Dates.antt =====
-- python/shim-service/src/utils/date_utils.py: the arithmetic on epoch seconds and milliseconds.
use shim_service.Base.{
  ℕ, ◌+◌, ◌-◌, ◌*◌, ◌/◌, ◌%◌, ◌≤◌, ◌<◌, ◌≡◌, ◌≢◌, Bool, arith, leb, ltb, if◌then◌else◌,
}

-- The system clock, in milliseconds, is an argument.
unfoldable pub get_system_time_in_seconds : ℕ → ℕ
get_system_time_in_seconds millis = millis / 1000

unfoldable pub round_to_next_minute : ℕ → ℕ
round_to_next_minute stamp = (stamp / 60) * 60 + (60 - stamp % 60)

unfoldable pub get_epoch_seconds_in_future : ℕ → ℕ → Bool → ℕ
get_epoch_seconds_in_future seconds from_time round_to_minute =
    let current = (from_time + 500) / 1000 + seconds in
    if round_to_minute then round_to_next_minute current else current

-- The two subtractions and the test `seconds_in_future <= 0` of the source are one comparison here.
unfoldable pub determine_next_minute_time : ℕ → ℕ → ℕ → ℕ
determine_next_minute_time seconds_in_future from_time flex_seconds =
    let now = (from_time + 500) / 1000 in
    let left = 60 - now % 60 in
    let now_seconds = now + left in
    let diff = seconds_in_future - left in
    if leb seconds_in_future left
    then now_seconds
    else if ltb flex_seconds (diff % 60)
    then now_seconds + (diff / 60 + 1) * 60
    else now_seconds + (diff / 60) * 60

-- Whatever the flexibility, the result is a minute boundary after the rounded clock, it is at most
-- `flex_seconds` before the moment that was asked for, and at most a minute after it.
determine_next_minute_time_bounds :
    (seconds_in_future from_time flex_seconds : ℕ)
    → let now = (from_time + 500) / 1000 in
      let t = determine_next_minute_time seconds_in_future from_time flex_seconds in
      (t % 60 ≡ 0)
      × (now < t)
      × (now + seconds_in_future ≤ t + flex_seconds)
      × (t ≤ now + seconds_in_future + 60)
unfolding determine_next_minute_time
determine_next_minute_time_bounds seconds_in_future from_time flex_seconds = ground arith

-- `round_to_next_minute` reaches a minute boundary only from a stamp that is one already, and then
-- it is the next one; in the second half of a minute it goes back in time.
round_to_next_minute_lem :
    (stamp : ℕ)
    → (stamp % 60 ≡ 0 → round_to_next_minute stamp ≡ stamp + 60)
      × (stamp % 60 ≢ 0 → round_to_next_minute stamp % 60 ≢ 0)
      × (30 < stamp % 60 → round_to_next_minute stamp < stamp)
unfolding round_to_next_minute
round_to_next_minute_lem stamp = ground arith

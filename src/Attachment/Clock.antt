-- ===== src/Attachment/Clock.antt =====
-- The timestamps of messages follow the clock.
use rmw_zenoh_pico.Prelude.{ℕ, ◌+◌, ◌*◌, ◌^◌, ◌<◌, ◌≡◌, ◌⊎◌, arith}
use rmw_zenoh_pico.Attachment.{zenoh_pico_gen_timestamp}

-- Until 2 ^ 33 seconds after the epoch, with the nanoseconds below a second, a timestamp is the exact
-- number of nanoseconds, fits an `int64_t`, and a later reading of the clock gives a later timestamp.
pub gen_timestamp_mono :
    (sec nsec sec' nsec' : ℕ)
    → sec < 2 ^ 33
    → sec' < 2 ^ 33
    → nsec < 1000000000
    → nsec' < 1000000000
    → (sec < sec') ⊎ ((sec ≡ sec') × (nsec < nsec'))
    → (zenoh_pico_gen_timestamp sec nsec ≡ sec * 1000000000 + nsec)
      × (zenoh_pico_gen_timestamp sec nsec < 2 ^ 63)
      × (zenoh_pico_gen_timestamp sec nsec < zenoh_pico_gen_timestamp sec' nsec')
unfolding zenoh_pico_gen_timestamp
gen_timestamp_mono sec nsec sec' nsec' a b c d later = omega arith

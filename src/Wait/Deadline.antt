-- ===== src/Wait/Deadline.antt =====
-- The absolute time at which a timed wait ends.
use rmw_zenoh_pico.Prelude.{
  ◌+◌, ◌*◌, ◌^◌, ◌/◌, ◌%◌, ◌<◌, ◌≡◌, refl, ◌&&◌, some, false, leb, ltb, arith,
}
use rmw_zenoh_pico.Wait.Call.{RmwTime, timewait_deadline}

-- Where the nanoseconds of the clock and of the time to wait together stay below 2 ^ 63, and so do the seconds
-- with the carry, the deadline of a timed wait overflows nowhere: it has fewer than 10 ^ 9 nanoseconds, as
-- pthread_cond_timedwait wants it, its seconds are not negative as a time_t, and it is later than the clock
-- by exactly the time to wait.
pub timewait_deadline_lem :
    (now wait_timeout : RmwTime)
    → now.nsec + wait_timeout.nsec < 2 ^ 63
    → now.sec + wait_timeout.sec + (now.nsec + wait_timeout.nsec) / 1000000000 < 2 ^ 63
    → (deadline : RmwTime) × (timewait_deadline now wait_timeout ≡ some deadline)
      × (deadline.nsec < 1000000000)
      × (deadline.sec < 2 ^ 63)
      × (deadline.sec * 1000000000 + deadline.nsec
          ≡ (now.sec * 1000000000 + now.nsec) + (wait_timeout.sec * 1000000000 + wait_timeout.nsec))
unfolding timewait_deadline
timewait_deadline_lem now wait_timeout nsec_fits sec_fits =
    let total = now.nsec + wait_timeout.nsec in
    let carry = total / 1000000000 in
    let deadline : RmwTime = record {
      sec = now.sec + wait_timeout.sec + carry;
      nsec = total % 1000000000;
    } in
    let no_overflow : ltb wait_timeout.nsec (2 ^ 63) && leb (2 ^ 63) total ≡ false = ground arith in
    let nsec_time : total % 2 ^ 64 ≡ total = omega (arith, nsec_fits) in
    let sec : (now.sec + (wait_timeout.sec + carry) % 2 ^ 64) % 2 ^ 64
        ≡ now.sec + wait_timeout.sec + carry =
      omega (arith, sec_fits) in
    (
      deadline,
      rw (timewait_deadline, no_overflow, nsec_time, sec) refl,
      omega arith,
      sec_fits,
      omega arith,
    )

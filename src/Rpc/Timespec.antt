-- ===== src/Rpc/Timespec.antt =====
-- The times of rpc/rpc.cc, with which a call's wait is timed. Seconds and timeouts are not negative;
-- an int that is negative is given as its bit pattern.
use ds.Base.{
  ℕ, zero, suc, ◌+◌, ◌-◌, ◌*◌, ◌/◌, ◌%◌, ◌^◌, ◌≤◌, ◌<◌, ◌≡◌, ◌↔◌, ◌&&◌, not, Option, none, some,
  arith, ltb, ◌==◌, if◌then◌else◌,
}

-- struct timespec
pub record Timespec : Type 0 where
  pub tv_sec : ℕ
  pub tv_nsec : ℕ

unfoldable pub cmp_timespec : Timespec → Timespec → ℕ
cmp_timespec a b =
    if ltb b.tv_sec a.tv_sec
    then 1
    else if ltb a.tv_sec b.tv_sec
    then 2 ^ 32 - 1
    else if ltb b.tv_nsec a.tv_nsec
    then 1
    else if ltb a.tv_nsec b.tv_nsec
    then 2 ^ 32 - 1
    else 0

-- while (result->tv_nsec > 1000000000), on fuel
unfoldable pub carry : ℕ → Timespec → Timespec
carry zero r = r
carry (suc fuel) r =
    let rest = carry fuel (record { tv_sec = r.tv_sec + 1; tv_nsec = r.tv_nsec - 1000000000 }) in
    if ltb 1000000000 r.tv_nsec then rest else r

-- add_timespec; what is added to tv_nsec is below a second, so that two rounds are enough.
unfoldable pub add_timespec : Timespec → ℕ → Timespec
unfolding carry
add_timespec a b =
    carry 2 (record { tv_sec = a.tv_sec + b / 1000; tv_nsec = a.tv_nsec + b % 1000 * 1000000 })

-- diff_timespec; `none` is an assertion that fails.
unfoldable pub diff_timespec : Timespec → Timespec → Option ℕ
diff_timespec end start =
    let diff = if ltb start.tv_sec end.tv_sec then (end.tv_sec - start.tv_sec) * 1000 else 0 in
    if diff == 0 && not (end.tv_sec == start.tv_sec)
    then none
    else if ltb start.tv_nsec end.tv_nsec
    then some ((diff + (end.tv_nsec - start.tv_nsec) / 1000000) % 2 ^ 32)
    else some ((diff + 2 ^ 32 - (start.tv_nsec - end.tv_nsec) / 1000000) % 2 ^ 32)

-- A time in nanoseconds.
abbrev pub nanoseconds : Timespec → ℕ
nanoseconds a = a.tv_sec * 1000000000 + a.tv_nsec

-- On times whose nanoseconds are below a second, cmp_timespec compares the times: it answers 1 for a
-- later, -1 for an earlier, and 0 for the same time.
pub cmp_timespec_lem :
    (a b : Timespec)
    → a.tv_nsec < 1000000000
    → b.tv_nsec < 1000000000
    → ((cmp_timespec a b ≡ 1) ↔ (nanoseconds b < nanoseconds a))
      × ((cmp_timespec a b ≡ 2 ^ 32 - 1) ↔ (nanoseconds a < nanoseconds b))
      × ((cmp_timespec a b ≡ 0) ↔ (nanoseconds a ≡ nanoseconds b))
unfolding cmp_timespec
cmp_timespec_lem a b h k = ground arith

carry_lem :
    (fuel : ℕ) (r : Timespec)
    → r.tv_nsec ≤ fuel * 1000000000 + 1000000000
    → (nanoseconds (carry fuel r) ≡ nanoseconds r) × ((carry fuel r).tv_nsec ≤ 1000000000)
unfolding carry
carry_lem zero r h = ground arith
carry_lem (suc fuel) r h =
    ground
      (arith, carry_lem fuel (record { tv_sec = r.tv_sec + 1; tv_nsec = r.tv_nsec - 1000000000 }))

-- On a time whose nanoseconds are below a second, add_timespec gives the time that is exactly the
-- timeout, in milliseconds, later; its loop ends with the nanoseconds at most a second.
pub add_timespec_lem :
    (a : Timespec) (b : ℕ)
    → a.tv_nsec < 1000000000
    → (nanoseconds (add_timespec a b) ≡ nanoseconds a + b * 1000000)
      × ((add_timespec a b).tv_nsec ≤ 1000000000)
unfolding add_timespec
add_timespec_lem a b h =
    let c =
      carry_lem 2
        (record { tv_sec = a.tv_sec + b / 1000; tv_nsec = a.tv_nsec + b % 1000 * 1000000 })
        (omega arith) in
    (omega (arith, c.0), c.1)

-- When the nanoseconds add up to a second exactly, add_timespec leaves them so, which is one more than
-- a timespec may have.
pub add_timespec_full :
    (a : Timespec) (b : ℕ)
    → a.tv_nsec + b % 1000 * 1000000 ≡ 1000000000
    → (add_timespec a b).tv_nsec ≡ 1000000000
unfolding add_timespec
add_timespec_full a b h = ground arith

-- The milliseconds from `start` to `end`.
abbrev between : Timespec → Timespec → ℕ
between start end =
    if ltb start.tv_nsec end.tv_nsec
    then (end.tv_sec - start.tv_sec) * 1000 + (end.tv_nsec - start.tv_nsec) / 1000000
    else (end.tv_sec - start.tv_sec) * 1000 - (start.tv_nsec - end.tv_nsec) / 1000000

-- For an end that is not before the start, and less than 2^31 - 1000 milliseconds after it in whole
-- seconds, diff_timespec answers the number of milliseconds between them, less than one off.
pub diff_timespec_lem :
    (end start : Timespec)
    → end.tv_nsec < 1000000000
    → start.tv_nsec < 1000000000
    → nanoseconds start ≤ nanoseconds end
    → (end.tv_sec - start.tv_sec) * 1000 + 1000 < 2 ^ 31
    → (r : ℕ) × (diff_timespec end start ≡ some r)
      × (r * 1000000 < nanoseconds end - nanoseconds start + 1000000)
      × (nanoseconds end - nanoseconds start < r * 1000000 + 1000000)
unfolding diff_timespec
diff_timespec_lem end start h k l n = (between start end, ground arith, ground arith, ground arith)

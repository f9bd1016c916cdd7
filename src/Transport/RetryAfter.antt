-- ===== src/Transport/RetryAfter.antt =====
-- `parseRetryAfter` of llm/apierror.go and the back-off schedule of llm/openai.go. A duration is a
-- 64-bit count of nanoseconds.
use azoth.Base.{ℕ, zero, suc, ◌*◌, ◌≤◌, ◌≡◌, true, if◌then◌else◌, arith}
use azoth.Base.Int.{ℤ, pos, negsuc, ltb_ℤ, wrap64, wrap64-FitsInt}

-- What the trimmed header holds, as the library's parsers read it: nothing, what `strconv.Atoi`
-- reads, a date and the time until it, or neither.
pub data Header : Type 0 where
  absent : Header
  seconds : ℤ → Header
  date : ℤ → Header
  unparseable : Header

abbrev pub second : ℕ
second = 1_000_000_000

abbrev pub millisecond : ℕ
millisecond = 1_000_000

-- `time.Duration(secs) * time.Second` for `secs` that is not negative.
abbrev pub in_seconds : ℤ → ℤ
in_seconds (pos n) = wrap64 (pos (n * second))
in_seconds (negsuc n) = pos 0

unfoldable pub parse_retry_after : Header → ℤ
parse_retry_after absent = pos 0
parse_retry_after (seconds n) = if ltb_ℤ n (pos 0) then pos 0 else in_seconds n
parse_retry_after (date d) = if ltb_ℤ d (pos 0) then pos 0 else d
parse_retry_after unparseable = pos 0

unfoldable pub retry_backoff : ℕ → ℤ
retry_backoff zero = pos (500 * millisecond)
retry_backoff (suc zero) = pos (1500 * millisecond)
retry_backoff (suc (suc n)) = pos (3 * second)

-- A header of seconds that the duration can hold is read exactly, and a negative one as none.
pub parse_retry_after-seconds :
    (n : ℕ) → n ≤ 9_223_372_036 → parse_retry_after (seconds (pos n)) ≡ pos (n * second)
unfolding parse_retry_after
parse_retry_after-seconds n h = ground (arith, wrap64-FitsInt (pos (n * second)))

-- A header of 9223372037 to 18446744073 seconds is read as a wait below zero: the multiplication
-- wraps around.
pub parse_retry_after_overflow :
    (n : ℕ)
    → 9_223_372_037 ≤ n
    → n ≤ 18_446_744_073
    → ltb_ℤ (parse_retry_after (seconds (pos n))) (pos 0) ≡ true
unfolding parse_retry_after wrap64
parse_retry_after_overflow n lo hi = ground arith

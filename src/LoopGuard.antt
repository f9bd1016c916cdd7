-- ===== src/LoopGuard.antt =====
-- llm/loopguard.go: the repetition detector. Text is a list of code points, as Go's `range` over a
-- string gives them; a fragment is one list.
pub mod Cyclic
pub mod Feed
pub mod Novelty
mod Tests
use azoth.Base.{
  ℕ, zero, suc, ◌+◌, ◌-◌, ◌*◌, ◌/◌, ◌%◌, ◌^◌, Bool, true, false, not, ◌&&◌, ◌||◌, Option, none,
  some, List, [], ◌∷◌, ◌++◌, ◌==◌, ltb, leb, if◌then◌else◌, length, get_elem?, take, drop, min,
}
use Prim.Native.Nat.{bit_xor}

abbrev pub max_tail : ℕ
max_tail = 1024

abbrev pub check_every : ℕ
check_every = 64

abbrev pub min_repeat_len : ℕ
min_repeat_len = 48

abbrev pub min_reps : ℕ
min_reps = 4

abbrev pub max_cycle_runes : ℕ
max_cycle_runes = 128

abbrev pub shingle_runes : ℕ
shingle_runes = 24

abbrev pub stride : ℕ
stride = 8

abbrev pub window_runes : ℕ
window_runes = 3072

abbrev pub novelty_check_every : ℕ
novelty_check_every = 256

abbrev pub persist : ℕ
persist = 3

pub record Detector : Type 0 where
  pub tail : List ℕ
  pub since : ℕ
  pub rbuf : List ℕ
  pub rsince : ℕ
  pub low_streak : ℕ

abbrev pub new_detector : Detector
new_detector = record { tail = []; since = 0; rbuf = []; rsince = 0; low_streak = 0 }

-- `append(xs[:0], xs[len(xs)-n:]...)` when there are more than `n`: the last `n`.
unfoldable pub keep_last : ℕ → List ℕ → List ℕ
keep_last n xs = if ltb n (length xs) then drop (length xs - n) xs else xs

-- Equality of two runes read at an index; both indices are in range where the code reads them.
abbrev pub same : Option ℕ → Option ℕ → Bool
same (some a) (some b) = a == b
same none _ = false
same (some a) none = false

-- The comparison loop of `isCyclicSuffix` from index `i`, with `fuel` indices left.
unfoldable pub compare_from : ℕ → List ℕ → ℕ → ℕ → Bool
compare_from zero suf unit i = true
compare_from (suc fuel) suf unit i =
    let rest = compare_from fuel suf unit (suc i) in
    if same (get_elem? suf i) (get_elem? suf (i - unit)) then rest else false

unfoldable pub is_cyclic_suffix : List ℕ → ℕ → ℕ → Bool
unfolding compare_from
is_cyclic_suffix b unit span = compare_from (span - unit) (drop (length b - span) b) unit unit

-- `reps`, and `span`, for one unit length.
abbrev pub reps_of : ℕ → ℕ
reps_of unit =
    if ltb (unit * min_reps) min_repeat_len then (min_repeat_len + unit - 1) / unit else min_reps

abbrev pub span_of : ℕ → ℕ
span_of unit = unit * reps_of unit

-- The loop over unit lengths, from `unit` on with `rounds` of them left.
unfoldable pub scan_units : ℕ → ℕ → List ℕ → Bool
unfolding is_cyclic_suffix
scan_units zero unit tail = false
scan_units (suc rounds) unit tail =
    let rest = scan_units rounds (suc unit) tail in
    if ltb (length tail) (span_of unit)
    then rest
    else if is_cyclic_suffix tail unit (span_of unit)
    then true
    else rest

abbrev pub max_unit : ℕ → ℕ
max_unit n = if ltb max_cycle_runes (n / min_reps) then max_cycle_runes else n / min_reps

unfoldable pub cyclic : List ℕ → Bool
unfolding scan_units
cyclic tail =
    if ltb (length tail) min_repeat_len then false else scan_units (max_unit (length tail)) 1 tail

-- `add`: the new state, and whether the tail has become a cycle.
unfoldable pub add : Detector → List ℕ → Detector × Bool
unfolding keep_last
add d s =
    let tail = keep_last max_tail (d.tail ++ s) in
    let since = d.since + length s in
    if ltb since check_every
    then (record d { tail = tail; since = since }, false)
    else (record d { tail = tail; since = 0 }, cyclic tail)

abbrev pub u64 : ℕ
u64 = 2 ^ 64

abbrev pub offset64 : ℕ
offset64 = 1469598103934665603

abbrev pub prime64 : ℕ
prime64 = 1099511628211

unfoldable pub hash_runes : ℕ → List ℕ → ℕ
hash_runes h [] = h
hash_runes h (r ∷ rs) = hash_runes (bit_xor h r * prime64 % u64) rs

abbrev pub has_hash : ℕ → List ℕ → Bool
has_hash h [] = false
has_hash h (x ∷ xs) = x == h || has_hash h xs

-- `seen[h] = struct{}{}`
abbrev pub put_hash : ℕ → List ℕ → List ℕ
put_hash h seen = if has_hash h seen then seen else h ∷ seen

-- A quotient of two counts; the code has it as a float64.
pub record Ratio : Type 0 where
  pub distinct : ℕ
  pub total : ℕ

-- The loop of `distinctShingleRatio` from offset `i`.
unfoldable pub count_shingles : ℕ → List ℕ → ℕ → List ℕ → ℕ → Ratio
unfolding hash_runes
count_shingles zero buf i seen total = record { distinct = length seen; total = total }
count_shingles (suc fuel) buf i seen total =
    let h = hash_runes offset64 (take shingle_runes (drop i buf)) in
    let rest = count_shingles fuel buf (i + stride) (put_hash h seen) (total + 1) in
    if leb (i + shingle_runes) (length buf)
    then rest
    else record { distinct = length seen; total = total }

unfoldable pub distinct_shingle_ratio : List ℕ → Ratio
unfolding count_shingles
distinct_shingle_ratio buf =
    if ltb (length buf) shingle_runes
    then record { distinct = 1; total = 1 }
    else count_shingles (length buf) buf 0 [] 0

-- `ratio < 0.30`
abbrev pub below_floor : Ratio → Bool
below_floor r = ltb (10 * r.distinct) (3 * r.total)

-- The part of `addReasoning` behind the cyclic check.
unfoldable pub add_novelty : Detector → List ℕ → Detector × Bool
unfolding keep_last
add_novelty d s =
    let rbuf = keep_last window_runes (d.rbuf ++ s) in
    let rsince = d.rsince + length s in
    if ltb (length rbuf) window_runes || ltb rsince novelty_check_every
    then (record d { rbuf = rbuf; rsince = rsince }, false)
    else (let streak = if below_floor (distinct_shingle_ratio rbuf) then d.low_streak + 1 else 0 in
        (record d { rbuf = rbuf; rsince = 0; low_streak = streak }, leb persist streak))

unfoldable pub add_reasoning : Detector → List ℕ → Detector × Bool
add_reasoning d s = let (d', tripped) = add d s in if tripped then (d', true) else add_novelty d' s

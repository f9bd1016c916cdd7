-- ===== src/Pool.antt =====
-- llm/pool.go: the FIFO slot pool. A critical section (what runs under `mu`) is one step; what a
-- goroutine does between two critical sections is its phase. Each `Acquire` call allocates one
-- waiter and nobody else keeps it but the queue, so a waiter stands in the record of its call and
-- a pointer to it is the number of the call.
pub mod Calls
pub mod Invariant
pub mod Reachable
pub mod Order
pub mod Progress
mod Tests
use azoth.Base.{
  ℕ, zero, suc, ◌+◌, ◌≡◌, Bool, true, false, Option, none, some, List, [], ◌∷◌, ◌++◌, ◌==◌,
  if◌then◌else◌, get_elem?, set, length, is_empty,
}
use azoth.Base.Int.{ℤ, pos, negsuc, ◌+ℤ◌, ◌-ℤ◌, ltb_ℤ}
use azoth.Base.Text.{Text}

-- How an `Acquire` call ended: with a releaser, or with an error.
pub data Failure : Type 0 where
  context_done queue_timeout : Failure

-- Where the goroutine of one call stands.
pub data Phase : Type 0 where
  -- before the first critical section of `Acquire`
  started : Phase
  -- in the `select`
  parked : Phase
  -- with a releaser that has not fired
  holding : Phase
  -- in `abandon`, after the unlock on the `w.done` branch and before `p.release()`
  must_release : Failure → Phase
  -- in `release`, after the unlock and before the send to the waiter of the numbered call
  sending : ℕ → Phase
  -- with a releaser that has fired, or with an error
  finished : Phase

-- One `Acquire` call, with its waiter's buffered channel (`ch`, true when it holds a value) and
-- `done` flag.
pub record Call : Type 0 where
  pub phase : Phase
  pub ch : Bool
  pub done : Bool

pub record Pool : Type 0 where
  pub name : Text
  pub capacity : ℤ
  pub inflight : ℤ
  pub queue : List ℕ
  pub timeout : ℤ
  -- every call made so far
  pub calls : List Call

pub new_pool_named : Text → ℤ → ℤ → Pool
new_pool_named name size timeout = record {
  name = name;
  capacity = if ltb_ℤ size (pos 1) then pos 1 else size;
  inflight = pos 0;
  queue = [];
  timeout = if ltb_ℤ timeout (pos 0) then pos 0 else timeout;
  calls = [];
}

pub new_pool : ℤ → Pool
unfolding new_pool_named
new_pool size = new_pool_named [] size (pos 0)

-- A goroutine makes a call: nothing is shared yet.
pub call_acquire : Pool → Pool
call_acquire p = record p {
  calls = p.calls ++ (record { phase = started; ch = false; done = false } ∷ []);
}

abbrev pub update : Pool → ℕ → Call → Pool
update p i c = record p { calls = set p.calls i c }

-- The first critical section of `Acquire`: the fast path, or a new waiter at the queue's end.
unfoldable pub enter : Pool → ℕ → Call → Pool
enter p i c =
    if ltb_ℤ p.inflight p.capacity
    then record p {
      inflight = p.inflight +ℤ pos 1;
      calls = set p.calls i (record c { phase = holding });
    }
    else record p {
      queue = p.queue ++ i ∷ [];
      calls = set p.calls i (record { phase = parked; ch = false; done = false });
    }

-- `case <-w.ch`
unfoldable pub receive : Pool → ℕ → Call → Pool
receive p i c = update p i (record c { phase = holding; ch = false })

-- The loop that takes one waiter out of the queue.
unfoldable pub remove_waiter : ℕ → List ℕ → List ℕ
remove_waiter i [] = []
remove_waiter i (x ∷ xs) = if x == i then xs else x ∷ remove_waiter i xs

-- The critical section of `abandon`.
unfoldable pub abandon : Pool → ℕ → Call → Failure → Pool
unfolding remove_waiter
abandon p i c err =
    if c.done then update p i (record c { phase = must_release err }) else record p {
      queue = remove_waiter i p.queue;
      calls = set p.calls i (record c { phase = finished; done = true });
    }

abbrev pub done_of : Option Call → Bool
done_of none = false
done_of (some c) = c.done

-- The loop of `release`: the first waiter that is not done, and the queue behind it.
unfoldable pub next_live : List Call → List ℕ → Option ℕ × List ℕ
next_live calls [] = (none, [])
next_live calls (w ∷ q) = if done_of (get_elem? calls w) then next_live calls q else (some w, q)

abbrev pub mark_done : List Call → ℕ → Option Call → List Call
mark_done calls w none = calls
mark_done calls w (some c) = set calls w (record c { done = true })

-- `w.done = true`, or `p.inflight--` when no waiter was found; `after` is the phase of the
-- releasing call when it has no send to make.
abbrev pub hand_off : Pool → ℕ → Call → Option ℕ × List ℕ → Pool
hand_off p i c (none, q) = record p {
  inflight = p.inflight -ℤ pos 1;
  queue = q;
  calls = set p.calls i (record c { phase = finished });
}
hand_off p i c (some w, q) = record p {
  queue = q;
  calls = set (mark_done p.calls w (get_elem? p.calls w)) i (record c { phase = sending w });
}

-- The critical section of `release`, run by call `i`.
unfoldable pub release : Pool → ℕ → Call → Pool
release p i c = hand_off p i c (next_live p.calls p.queue)

abbrev pub fill : List Call → ℕ → Option Call → List Call
fill calls w none = calls
fill calls w (some c) = set calls w (record c { ch = true })

-- `w.ch <- struct{}{}`
unfoldable pub send : Pool → ℕ → Call → ℕ → Pool
send p i c w = record p {
  calls = set (fill p.calls w (get_elem? p.calls w)) i (record c { phase = finished });
}

unfoldable pub inflight_count : Pool → ℤ
inflight_count p = p.inflight

unfoldable pub queued_count : Pool → ℕ
queued_count p = length p.queue

-- One step of one goroutine. `once.Do` lets a releaser run `release` once, whatever the number of
-- its calls: a further call is `release_again`.
pub data Step (p : Pool) : Pool → Type 0 where
  call : Step p (call_acquire p)
  enters :
      (i : ℕ) (c : Call) → get_elem? p.calls i ≡ some c → c.phase ≡ started → Step p (enter p i c)
  receives :
      (i : ℕ) (c : Call)
      → get_elem? p.calls i ≡ some c
      → c.phase ≡ parked
      → c.ch ≡ true
      → Step p (receive p i c)
  cancels :
      (i : ℕ) (c : Call)
      → get_elem? p.calls i ≡ some c
      → c.phase ≡ parked
      → Step p (abandon p i c context_done)
  times_out :
      (i : ℕ) (c : Call)
      → get_elem? p.calls i ≡ some c
      → c.phase ≡ parked
      → ltb_ℤ (pos 0) p.timeout ≡ true
      → Step p (abandon p i c queue_timeout)
  releases :
      (i : ℕ) (c : Call) → get_elem? p.calls i ≡ some c → c.phase ≡ holding → Step p (release p i c)
  passes_on :
      (i : ℕ) (c : Call) (err : Failure)
      → get_elem? p.calls i ≡ some c
      → c.phase ≡ must_release err
      → Step p (release p i c)
  sends :
      (i : ℕ) (c : Call) (w : ℕ)
      → get_elem? p.calls i ≡ some c
      → c.phase ≡ sending w
      → Step p (send p i c w)
  release_again : (i : ℕ) (c : Call) → get_elem? p.calls i ≡ some c → c.phase ≡ finished → Step p p

pub data Reach (p : Pool) : Pool → Type 0 where
  here : Reach p p
  next : {q r : Pool} → Reach p q → Step q r → Reach p r

-- ===== src/Concurrency/Semaphore.antt =====
-- `Semaphore` of internal/engine/concurrency.go: a buffered channel with a counter beside it. A call
-- is one step, as it is under the service's mutex. `ch` is the number of tokens in the channel.
use n8n_turbo.Prelude.{
  ℕ, ◌+◌, ◌-◌, Bool, true, false, not, ◌&&◌, ◌||◌, String, ltb, leb, if◌then◌else◌, ℤ, pos_part,
}

pub record Semaphore : Type 0 where
  pub ch : ℕ
  pub max_size : ℕ
  pub current : ℕ
  pub name : String

-- A negative size is 0, which `pos_part` reads it as.
unfoldable pub new : String → ℤ → Semaphore
new name n = record { ch = 0; max_size = pos_part n; current = 0; name = name }

abbrev pub unlimited : Semaphore → Bool
unlimited s = leb s.max_size 0

-- The `select` of `Acquire`: a send that has room, the context's end, or neither yet.
pub data Outcome : Type 0 where
  acquired canceled blocked : Outcome

-- `done` is whether the context has ended; where both cases are ready, `pick` is Go's choice.
unfoldable pub acquire : Bool → Bool → Semaphore → Semaphore × Outcome
acquire done pick s =
    if unlimited s
    then (s, acquired)
    else if ltb s.ch s.max_size && (not done || pick)
    then (record s { ch = s.ch + 1; current = s.current + 1 }, acquired)
    else if done
    then (s, canceled)
    else (s, blocked)

unfoldable pub try_acquire : Semaphore → Semaphore × Bool
try_acquire s =
    if unlimited s
    then (s, true)
    else if ltb s.ch s.max_size
    then (record s { ch = s.ch + 1; current = s.current + 1 }, true)
    else (s, false)

unfoldable pub release : Semaphore → Semaphore × Bool
release s =
    if unlimited s
    then (s, true)
    else if ltb 0 s.ch
    then (record s { ch = s.ch - 1; current = s.current - 1 }, true)
    else (s, false)

unfoldable pub available : Semaphore → ℕ
available s = if unlimited s then 0 else s.max_size - s.current

unfoldable pub is_full : Semaphore → Bool
is_full s = ltb 0 s.max_size && leb s.max_size s.current

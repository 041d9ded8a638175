-- ===== src/Buffers/Sync.antt =====
-- HSyncBuffer of src/hsyncbuffer.h and .cpp: a queue behind a mutex and a condition (HConLock of
-- src/hmutex.h). What a thread does while it holds the mutex is one event, and the events of the
-- threads come in any order. The mutex and the condition are the system's: a signal wakes one of the
-- waiting threads, if there is one, and a thread may also wake up without a signal.
pub mod Order
use huicpp.Base.{
  ℕ, suc, ◌+◌, ◌-◌, List, [], ◌∷◌, ◌++◌, length, Bool, true, false, not, ◌||◌, if◌then◌else◌, ltb,
  Option, none, some,
}
use huicpp.Base.Options.{◌>>=◌}

-- `pending` threads have left the mutex in PushData and not called Signal; `waiting` threads are in
-- Wait; `awake` threads have been woken in Wait and do not have the mutex again. `pushed` and `taken`
-- record what went in and came out.
pub record Monitor (A : Type 0) : Type 0 where
  pub items : List A
  pub pending : ℕ
  pub waiting : ℕ
  pub awake : ℕ
  pub pushed : List A
  pub taken : List A

-- `pop` and `pop_all` begin a call; `resume_pop` and `resume_pop_all` go on with a thread that is awake.
pub data Event (A : Type 0) : Type 0 where
  push : A → Event A
  signal : Event A
  pop : Event A
  pop_all : Event A
  resume_pop : Event A
  resume_pop_all : Event A
  spurious : Event A

module _ {A : Type 0} where
  unfoldable pub start_monitor : Monitor A
  start_monitor = record {
    items = [];
    pending = 0;
    waiting = 0;
    awake = 0;
    pushed = [];
    taken = [];
  }

  -- PushData under the mutex.
  unfoldable pub push_data : A → Monitor A → Monitor A
  push_data x m = record m {
    items = m.items ++ (x ∷ []);
    pending = suc m.pending;
    pushed = m.pushed ++ (x ∷ []);
  }

  -- One of the waiting threads, if there is one, wakes up.
  unfoldable pub wake : Monitor A → Monitor A
  wake m = if ltb 0 m.waiting then record m { waiting = m.waiting - 1; awake = suc m.awake } else m

  -- Signal, by a thread that has pushed.
  unfoldable pub signal_one : Monitor A → Option (Monitor A)
  unfolding wake
  signal_one m =
      if ltb 0 m.pending then some (wake (record m { pending = m.pending - 1 })) else none

  -- The test of the loop in PopData: Wait, or the first item.
  unfoldable pub pop_data : List A → Monitor A → Monitor A
  pop_data [] m = record m { waiting = suc m.waiting }
  pop_data (x ∷ xs) m = record m { items = xs; taken = m.taken ++ (x ∷ []) }

  -- The test of the loop in PopAllData: Wait, or all the items.
  unfoldable pub pop_all_data : List A → Monitor A → Monitor A
  pop_all_data [] m = record m { waiting = suc m.waiting }
  pop_all_data (x ∷ xs) m = record m { items = []; taken = m.taken ++ (x ∷ xs) }

  -- A thread that has been woken has the mutex again.
  unfoldable pub reacquire : Monitor A → Option (Monitor A)
  reacquire m = if ltb 0 m.awake then some (record m { awake = m.awake - 1 }) else none

  unfoldable pub sync_step : Event A → Monitor A → Option (Monitor A)
  unfolding push_data signal_one pop_data pop_all_data reacquire wake ◌>>=◌
  sync_step (push x) m = some (push_data x m)
  sync_step signal m = signal_one m
  sync_step pop m = some (pop_data m.items m)
  sync_step pop_all m = some (pop_all_data m.items m)
  sync_step resume_pop m = do m' ← reacquire m; some (pop_data m'.items m')
  sync_step resume_pop_all m = do m' ← reacquire m; some (pop_all_data m'.items m')
  sync_step spurious m = some (wake m)

  -- `none` if the events cannot come in this order.
  unfoldable pub sync_run : List (Event A) → Monitor A → Option (Monitor A)
  unfolding sync_step ◌>>=◌
  sync_run [] m = some m
  sync_run (e ∷ es) m = do m' ← sync_step e m; sync_run es m'

  -- HasData.
  unfoldable pub has_data : Monitor A → Bool
  has_data m = is_nil m.items
    where
      is_nil : List A → Bool
      is_nil [] = true
      is_nil (_ ∷ _) = false

-- PopData(ptr, len) after the other PopData has given `mem`: the bytes for `ptr` and the new `len`;
-- `none` is the exception.
unfoldable pub copy_out : Bool → ℕ → List ℕ → Option (List ℕ × ℕ)
copy_out ptr_is_null len mem =
    if ltb len (length mem) || ptr_is_null then none else some (mem, length mem)

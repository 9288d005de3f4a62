-- ===== src/Core/Wakeup.antt =====
-- cpool_core_wakeup_n_sleeping_threadsl of pool/core/cpool_core.h, as in a build with NDEBUG,
-- without its assertion that the first thread of the wait queue sleeps and is counted.
use libstpool.Base.{
  ℕ, zero, suc, ◌+◌, ◌-◌, List, [], ◌∷◌, Bool, true, false, if◌then◌else◌, ℤ, pos, negsuc,
}
use libstpool.Core.Threads.{Thread, Env, modify}

abbrev pub decrement : ℤ → ℤ
decrement (pos zero) = negsuc zero
decrement (pos (suc k)) = pos k
decrement (negsuc k) = negsuc (suc k)

abbrev pub is_one : ℤ → Bool
is_one (pos (suc zero)) = true
is_one _ = false

abbrev pub waked : Thread → Thread
waked t = record t { b_waked = true }

-- One round of the loop, on the first thread of the wait queue.
unfoldable pub wake_first : Env → ℕ → List ℕ → Env
wake_first e i rest = record e {
  ths = modify i waked e.ths;
  ths_waitq = rest;
  n_qths_wait = e.n_qths_wait - 1;
  n_qths_waked = e.n_qths_waked + 1;
  signalled = i ∷ e.signalled;
}

-- The loop; it ends at the end of the queue, or where `-- nwake` reaches 0.
unfoldable pub wake_loop : List ℕ → ℤ → Env → Env
unfolding wake_first
wake_loop [] nwake e = e
wake_loop (i ∷ rest) nwake e =
    let e' = wake_first e i rest in
    let more = wake_loop rest (decrement nwake) e' in if is_one nwake then e' else more

unfoldable pub wakeup_n_sleeping_threadsl : Env → ℤ → Env
unfolding wake_loop
wakeup_n_sleeping_threadsl e nwake = wake_loop e.ths_waitq nwake e

-- ===== src/Core/Grow.antt =====
-- cpool_core_add_threadsl and cpool_core_dec_threadsl of pool/core/cpool_core.c. The threads that
-- smcache_get and OSPX_pthread_create give are a list of results, `none` for a failure.
use libstpool.Base.{
  ℕ, zero, suc, ◌+◌, ◌-◌, List, [], ◌∷◌, ◌++◌, Option, none, some, true, false, not, ◌&&◌, ◌||◌,
  ◌==◌, ltb, if◌then◌else◌, min,
}
use libstpool.Core.Threads.{
  Thread, ThreadStat, free, force_quit, is_wait, is_run, Env, init_thread, modify, unqueue,
}

-- THREAD_STAT_FORCE_QUIT becomes THREAD_STAT_FREE.
abbrev pub revived_status : ThreadStat → ThreadStat
revived_status force_quit = free
revived_status s = s

abbrev pub revived : Thread → Thread
revived t = record t {
  run = true;
  rm = false;
  status = revived_status t.status;
  b_waked = if is_wait t.status then true else t.b_waked;
}

-- The counters after a thread that was to leave is taken back; its structure is changed apart.
unfoldable pub count_revived : Env → Thread → Env
count_revived e t =
    let e' = record e {
      nthreads_real_pool = e.nthreads_real_pool + 1;
      nthreads_dying = e.nthreads_dying - 1;
    } in
    if is_wait t.status
    then (if t.b_waked
        then record e' { nthreads_real_sleeping = e.nthreads_real_sleeping + 1 }
        else record e' {
          nthreads_real_sleeping = e.nthreads_real_sleeping + 1;
          n_qths_waked = e.n_qths_waked + 1;
          n_qths_wait = e.n_qths_wait - 1;
          ths_waitq = unqueue t.tid e.ths_waitq;
          signalled = t.tid ∷ e.signalled;
        })
    else if is_run t.status
    then record e' { nthreads_dying_run = e.nthreads_dying_run - 1 }
    else record e' { nthreads_real_free = e.nthreads_real_free + 1 }

-- list_for_each_entry over the threads from the head: `nthreads` is not 0 where a round begins.
unfoldable pub revive_loop : List Thread → ℕ → Env → List Thread × ℕ × Env
unfolding count_revived
revive_loop [] nthreads e = ([], nthreads, e)
revive_loop (t ∷ ts) nthreads e =
    let skipped = revive_loop ts nthreads e in
    let e' = count_revived e t in
    let rest = revive_loop ts (nthreads - 1) e' in
    if not t.rm
    then (t ∷ skipped.0, skipped.1, skipped.2)
    else if nthreads - 1 == 0 || e'.nthreads_dying == 0
    then (revived t ∷ ts, nthreads - 1, e')
    else (revived t ∷ rest.0, rest.1, rest.2)

-- The loop that adds new threads; without `self` each is launched at once, else it is put into the
-- queue `thq` of `self`.
unfoldable pub link_new : Option ℕ → ℕ → List Thread → List Thread
unfolding init_thread
link_new none i ts = ts ++ init_thread i ∷ []
link_new (some self) i ts =
    modify self (λ t. record t { thq = t.thq ++ i ∷ [] }) ts ++ init_thread i ∷ []

unfoldable pub create_loop : Option ℕ → ℕ → List (Option ℕ) → List Thread → ℕ × List Thread
unfolding link_new
create_loop self zero made ts = (0, ts)
create_loop self (suc nthreads) [] ts = (0, ts)
create_loop self (suc nthreads) (none ∷ made) ts = (0, ts)
create_loop self (suc nthreads) (some i ∷ made) ts =
    let rest = create_loop self nthreads made (link_new self i ts) in (suc rest.0, rest.1)

unfoldable pub revive : ℕ → Env → ℕ × Env
unfolding revive_loop
revive nthreads e =
    let (ts, left, e') = revive_loop e.ths nthreads e in
    if e.nthreads_dying == 0 || nthreads == 0 then (nthreads, e) else (left, record e' { ths = ts })

unfoldable pub create : Option ℕ → ℕ → List (Option ℕ) → Env → ℕ × Env
unfolding create_loop
create self nthreads made e =
    let (n, ts) = create_loop self nthreads made e.ths in
    let pool = e.nthreads_real_pool + n in
    (
      n,
      record e {
        ths = ts;
        n_qths = e.n_qths + n;
        nthreads_real_free = e.nthreads_real_free + n;
        nthreads_real_pool = pool;
        nthreads_peak = if ltb e.nthreads_peak pool then pool else e.nthreads_peak;
        ref = e.ref + n;
        crttime = e.now;
      },
    )

-- The number of new threads, and the threads after the call.
unfoldable pub add_threadsl : Env → Option ℕ → ℕ → List (Option ℕ) → ℕ × Env
unfolding revive create
add_threadsl e self nthreads made = let (left, e') = revive nthreads e in create self left made e'

abbrev pub marked : Thread → Thread
marked t = record t {
  run = false;
  rm = true;
  b_waked = if is_wait t.status then true else t.b_waked;
}

-- The counters after a thread that is not marked is told to leave.
unfoldable pub count_marked : Env → Thread → Env
count_marked e t =
    let e' = record e {
      nthreads_real_pool = e.nthreads_real_pool - 1;
      nthreads_dying = e.nthreads_dying + 1;
    } in
    if is_run t.status
    then record e' { nthreads_dying_run = e.nthreads_dying_run + 1 }
    else if is_wait t.status
    then (if t.b_waked
        then record e' { nthreads_real_sleeping = e.nthreads_real_sleeping - 1 }
        else record e' {
          nthreads_real_sleeping = e.nthreads_real_sleeping - 1;
          n_qths_waked = e.n_qths_waked + 1;
          n_qths_wait = e.n_qths_wait - 1;
          ths_waitq = unqueue t.tid e.ths_waitq;
          signalled = t.tid ∷ e.signalled;
        })
    else record e' { nthreads_real_free = e.nthreads_real_free - 1 }

-- The loop over the threads: `nthreads` to mark, of which `nrun` may be running. The result is the
-- threads, the number that was marked and the counters.
unfoldable pub mark_loop : List Thread → ℕ → ℕ → Env → List Thread × ℕ × Env
unfolding count_marked
mark_loop [] nthreads nrun e = ([], 0, e)
mark_loop (t ∷ ts) nthreads nrun e =
    let busy = is_run t.status in
    let takes = not busy || not (nrun == 0) in
    let nthreads' = if busy then nthreads else nthreads - 1 in
    let nrun' = if busy then nrun - 1 else nrun in
    let e' = if takes then count_marked e t else e in
    let t' = if takes then marked t else t in
    let died : ℕ = if takes then 1 else 0 in
    let skipped = mark_loop ts nthreads nrun e in
    let rest = mark_loop ts nthreads' nrun' e' in
    if t.rm
    then (t ∷ skipped.0, skipped.1, skipped.2)
    else if nthreads' == 0 && nrun' == 0
    then (t' ∷ ts, died, e')
    else (t' ∷ rest.0, died + rest.1, rest.2)

-- The number of threads that were marked, and the threads after the call.
unfoldable pub dec_threadsl : Env → ℕ → ℕ × Env
unfolding mark_loop
dec_threadsl e nthreads =
    let n = min e.nthreads_real_pool nthreads in
    let real_running = e.nthreads_running - e.nthreads_dying_run in
    let others = e.nthreads_real_pool - real_running in
    let nrun = if ltb others n then n - others else 0 in
    let (ts, died, e') = mark_loop e.ths n nrun e in
    if nthreads == 0 || e.nthreads_real_pool == 0 then (0, e) else (died, record e' { ths = ts })

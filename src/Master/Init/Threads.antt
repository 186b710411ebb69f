-- ===== src/Master/Init/Threads.antt =====
-- src/master.c: the thread that receives SIGUSR1, and the end of `main`.
use real_time_cyclic.Prelude.{ℕ, ◌≡◌, arith, pos, negsuc, ◌==ℤ◌, ltb_ℤ, Bool, not, ◌&&◌}
use real_time_cyclic.Os.{M, pure, given◌run◌otherwise◌}
use real_time_cyclic.Master.Init.Process.{Calls, Process, final}

-- Whether the thread stays, with SIGUSR1 unblocked in it and asleep on the mutex that `init` locked.
-- `pthread_sigmask` returns 0 or the positive number of an error, which is compared with -1.
unfoldable pub async_signal_handler_thread : ℕ → Bool → Bool
async_signal_handler_thread sigmask_error mutex_lock_fails =
    not (pos sigmask_error ==ℤ negsuc 0) && not mutex_lock_fails

-- The end of `main`. `pthread_join` returns 0 or, on an error, a positive number.
unfoldable pub end_main : Calls → ℕ → ℕ → M Process ℕ
end_main calls first_join second_join =
    given ltb_ℤ (pos first_join) (pos 0)
    run pure 1
    otherwise given ltb_ℤ (pos second_join) (pos 0)
    run pure 1
    otherwise final calls

-- Whatever the two calls of `pthread_join` return, `main` goes on to `final`: no error of theirs is
-- seen.
pub end_main-final :
    (calls : Calls) (first_join second_join : ℕ) (p : Process)
    → end_main calls first_join second_join p ≡ final calls p
unfolding end_main
end_main-final calls first_join second_join p = ground arith

-- ===== src/Mutex/Tests.antt =====
-- The processes 1000 and 2000.
use chaotix.Base.{ℕ, ◌≡◌, refl, ◌≢◌, inl, none, some, arith}
use chaotix.Base.Outcome.{ok}
use chaotix.Mutex.{Mutex, mutex_lock, mutex_unlock}
use chaotix.Mutex.Exclusion.{mutex_lock-mutex_unlock}

abbrev free_mutex : Mutex
free_mutex = record { holder = none; level = 0 }

abbrev two_times : ℕ
two_times = 2

lock_1000 : mutex_lock 1000 free_mutex ≡ some (record { holder = some 1000; level = 1 })
unfolding mutex_lock
lock_1000 = refl

two_processes : ◌≢◌ {A = ℕ} 1000 2000
two_processes h = omega arith

mutex_lock-mutex_unlock_example :
    (mutex_unlock 1000 (record { holder = some 1000; level = 1 }) ≡ ok free_mutex)
    × (mutex_lock 2000 (record { holder = some 1000; level = 1 }) ≡ none)
mutex_lock-mutex_unlock_example =
    mutex_lock-mutex_unlock 1000 2000 free_mutex (record { holder = some 1000; level = 1 })
      (inl (refl, refl)) (omega arith) two_processes lock_1000

-- ===== src/Examples/Reloads.antt =====
-- A reload: one monitor keeps its configuration, one is changed, one is gone.
use upag.Base.{◌≡◌, ℕ, refl, true, List, [], ◌∷◌, nat_eq, inl, arith}
use upag.Workers.{Wanted, Workers, find_worker, apply_config}
use upag.Workers.Running.{Serves, apply_config-Serves}
use upag.Workers.Leaks.{known, apply_config-NoLeak}

abbrev started : Workers ℕ
started = record {
  running =
      record { id = "a"; config = 1; goroutine = 0 }
      ∷ record { id = "b"; config = 1; goroutine = 1 }
      ∷ record { id = "c"; config = 1; goroutine = 2 }
      ∷ [];
  cancelled = [];
  next = 3;
}

abbrev wanted : List (Wanted ℕ)
wanted = record { id = "a"; config = 1 } ∷ record { id = "b"; config = 2 } ∷ []

apply_config-Serves_example :
    Serves
      (record { id = "a"; config = 1 })
      (find_worker "a" started.running)
      (find_worker "a" (apply_config wanted started).running)
apply_config-Serves_example =
    (apply_config-Serves wanted started (refl, (refl, tt))).0 (record { id = "a"; config = 1 })
      (inl refl)

-- The goroutine of the changed monitor is cancelled.
apply_config-NoLeak_example :
    known 1 (apply_config wanted started).running (apply_config wanted started).cancelled ≡ true
unfolding apply_config
apply_config-NoLeak_example =
    apply_config-NoLeak wanted started (λ k below. ground arith) 1 (omega arith)

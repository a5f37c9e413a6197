-- ===== src/Transfer/Restart.antt =====
-- A restart of the daemon and the guard.
use upag.Base.{
  ℕ, ◌-◌, ◌≤◌, ◌≡◌, refl, String, List, [], ◌∷◌, ◌++◌, true, false, ◌==◌, string_eq, nat_eq, keep,
  arith, ok, pos, eq_iff,
}
use upag.Storage.{ConnectivitySample}
use upag.Store.{Store, Db, available, broken}
use upag.Store.ObserverChecks.{list_connectivity_samples, save_connectivity_samples}
use upag.Transfer.{
  TransferCheckConfig, TransferGuard, Sampling, Transfer, judge, replay, cleared, restored,
  restore_transfer_guard, transfer_guard_freshness_window, check_transfer, sampled, sample_transfer,
}

-- The stored samples of the guard, newest first.
abbrev pub history : Store → List ConnectivitySample
history s = keep (λ c. c.kind == "transfer") s.connectivity_samples

-- The guard is what its stored samples make of it.
abbrev pub Replayed : TransferCheckConfig → Store → TransferGuard → Type 0
Replayed cfg s g =
    let (r, at) = replay cfg (history s) (cleared 0) in
    (g.slow_streak ≡ r.slow_streak) × (g.degraded ≡ r.degraded) × (g.last_sample ≡ at)

check_transfer-kind :
    (cfg : TransferCheckConfig) (source monitor_id : String) (now : ℕ) (t : Transfer)
    → ((check_transfer cfg source monitor_id now t).kind ≡ "transfer")
      × ((check_transfer cfg source monitor_id now t).checked_at ≡ now)
unfolding check_transfer
check_transfer-kind cfg source monitor_id now t = ground arith

judge_reads :
    (cfg : TransferCheckConfig) (at : ℕ) (c : ConnectivitySample) (g h : TransferGuard)
    → g.slow_streak ≡ h.slow_streak
    → g.degraded ≡ h.degraded
    → ((judge cfg at c g).slow_streak ≡ (judge cfg at c h).slow_streak)
      × ((judge cfg at c g).degraded ≡ (judge cfg at c h).degraded)
unfolding judge
judge_reads cfg at c g h e d = ground arith

-- The id is not looked at.
judge_row :
    (cfg : TransferCheckConfig) (at n : ℕ) (c : ConnectivitySample) (g : TransferGuard)
    → judge cfg at (record c { id = n }) g ≡ judge cfg at c g
unfolding judge
judge_row cfg at n c g = refl

history-insert :
    (c : ConnectivitySample) (s : Store)
    → c.kind ≡ "transfer"
    → history (save_connectivity_samples available (c ∷ []) s).0
      ≡ record c { id = s.next_sample_id } ∷ history s
unfolding save_connectivity_samples
history-insert c s k = ground (arith, eq_iff c.kind "transfer")

replay_cons :
    (cfg : TransferCheckConfig) (c : ConnectivitySample) (cs : List ConnectivitySample)
    → let (older, at) = replay cfg cs (cleared 0) in
      replay cfg (c ∷ cs) (cleared 0) ≡ (judge cfg at c older, c.checked_at)
unfolding replay
replay_cons cfg c cs = refl

sampled-Replayed :
    (cfg : TransferCheckConfig) (db : Db) (c : ConnectivitySample) (s : Store) (g : TransferGuard)
    → c.kind ≡ "transfer"
    → Replayed cfg s g
    → let (s', g') = sampled cfg c (save_connectivity_samples db (c ∷ []) s) g in Replayed cfg s' g'
unfolding save_connectivity_samples
sampled-Replayed cfg broken c s g k h = h
sampled-Replayed cfg available c s g k h =
    let (r, at) = replay cfg (history s) (cleared 0) in
    ground (
      arith,
      history-insert c s k,
      judge_row cfg g.last_sample s.next_sample_id c r,
      judge_reads cfg g.last_sample c g r h.0 h.1,
      replay_cons cfg (record c { id = s.next_sample_id }) (history s),
    )

-- Whatever a call of `sampleTransfer` meets (the check is off, it is too early, the caller is
-- cancelled, the sample cannot be stored, or it is stored), afterwards the guard is again what a
-- replay of its stored samples gives, if it was before.
pub sample_transfer-Replayed :
    (e : Sampling) (cfg : TransferCheckConfig) (source monitor_id : String) (s : Store)
    (g : TransferGuard)
    → Replayed cfg s g
    → let (s', g') = sample_transfer e cfg source monitor_id s g in Replayed cfg s' g'
unfolding sample_transfer
sample_transfer-Replayed e cfg source monitor_id s g h = ground (
  arith,
  sampled-Replayed cfg e.save_db (check_transfer cfg source monitor_id e.now e.transfer) s g
      (check_transfer-kind cfg source monitor_id e.now e.transfer).0,
)

-- At most as degraded.
abbrev pub NoWorse : TransferGuard → TransferGuard → Type 0
NoWorse g h = (g.slow_streak ≤ h.slow_streak) × (g.degraded ≡ true → h.degraded ≡ true)

judge-NoWorse :
    (cfg : TransferCheckConfig) (at : ℕ) (c : ConnectivitySample) (g h : TransferGuard)
    → NoWorse g h
    → NoWorse (judge cfg at c g) (judge cfg at c h)
unfolding judge
judge-NoWorse cfg at c g h w = ground arith

-- Without a sample before it, the streak is at its start already.
judge_first-NoWorse :
    (cfg : TransferCheckConfig) (at : ℕ) (c : ConnectivitySample) (g h : TransferGuard)
    → g.slow_streak ≡ 0
    → g.degraded ≡ false
    → NoWorse (judge cfg 0 c g) (judge cfg at c h)
unfolding judge
judge_first-NoWorse cfg at c g h e d = ground arith

replay-NoWorse :
    (cfg : TransferCheckConfig) (cs older : List ConnectivitySample) (t u : ℕ)
    → NoWorse (replay cfg cs (cleared t)).0 (replay cfg (cs ++ older) (cleared u)).0
unfolding replay
replay-NoWorse cfg [] older t u = ground arith
replay-NoWorse cfg (c ∷ []) older t u =
    judge_first-NoWorse cfg (replay cfg older (cleared u)).1 c (cleared t)
      (replay cfg older (cleared u)).0 refl refl
replay-NoWorse cfg (c ∷ d ∷ ds) older t u =
    judge-NoWorse cfg d.checked_at c (replay cfg (d ∷ ds) (cleared t)).0
      (replay cfg ((d ∷ ds) ++ older) (cleared u)).0 (replay-NoWorse cfg (d ∷ ds) older t u)

restored-NoWorse :
    (cfg : TransferCheckConfig) (now : ℕ) (cs older : List ConnectivitySample)
    → NoWorse (restored cfg now cs) (replay cfg (cs ++ older) (cleared 0)).0
unfolding restored
restored-NoWorse cfg now [] older = ground arith
restored-NoWorse cfg now (c ∷ cs) older =
    ground (arith, replay-NoWorse cfg (c ∷ cs) older c.checked_at 0)

-- A restart never makes the guard worse: whichever of the newest samples the query still returns,
-- the restored streak is no longer than the one before the restart, and the guard is degraded only
-- if it was.
pub restore-NoWorse :
    (cfg : TransferCheckConfig) (now : ℕ) (s : Store) (g start : TransferGuard)
    (listed older : List ConnectivitySample)
    → Replayed cfg s g
    → history s ≡ listed ++ older
    → cfg.enabled ≡ true
    → (list_connectivity_samples available "transfer"
        (now - transfer_guard_freshness_window cfg)
        (pos 1000)
        s).1
      ≡ ok listed
    → NoWorse (restore_transfer_guard available cfg now s start) g
unfolding restore_transfer_guard
restore-NoWorse cfg now s g start listed older h e on l =
    ground (arith, restored-NoWorse cfg now listed older)

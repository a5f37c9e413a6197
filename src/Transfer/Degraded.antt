-- ===== src/Transfer/Degraded.antt =====
-- What it takes for the guard to be degraded.
use upag.Base.{
  ℕ, suc, ◌-◌, ◌≤◌, ◌≡◌, refl, List, [], ◌∷◌, ◌++◌, ap, sym, ◌⊎◌, inl, inr, Bool, true, false, not,
  ◌==◌, nat_eq, ltb, ◌&&◌, All, arith, if◌then◌else◌,
}
use upag.Storage.{ConnectivitySample}
use upag.Transfer.{
  TransferCheckConfig, TransferGuard, judge, replay, cleared, slow_limit, transfer_sample_is_slow,
  transfer_guard_max_streak_gap,
}

-- The slow samples up to the newest, none of which came too long after the one before it.
abbrev pub slow_run : TransferCheckConfig → List ConnectivitySample → ℕ
slow_run cfg [] = 0
slow_run cfg (c ∷ []) = if transfer_sample_is_slow c then 1 else 0
slow_run cfg (c ∷ d ∷ ds) =
    let older = slow_run cfg (d ∷ ds) in
    let gap =
      not (d.checked_at == 0)
      && ltb (transfer_guard_max_streak_gap cfg) (c.checked_at - d.checked_at) in
    if transfer_sample_is_slow c then (if gap then 1 else suc older) else 0

-- A sample that shows that the transfer performs again.
abbrev pub recovers : ConnectivitySample → Bool
recovers c = not (transfer_sample_is_slow c) && c.ok

replay-slow_run :
    (cfg : TransferCheckConfig) (cs : List ConnectivitySample)
    → (replay cfg cs (cleared 0)).0.slow_streak ≡ slow_run cfg cs
unfolding replay judge
replay-slow_run cfg [] = refl
replay-slow_run cfg (c ∷ []) = ground arith
replay-slow_run cfg (c ∷ d ∷ ds) = ground (arith, replay-slow_run cfg (d ∷ ds))

-- Some run of slow samples reached the limit, and nothing after it showed a recovery.
abbrev pub Degrading : TransferCheckConfig → List ConnectivitySample → Type 0
Degrading cfg cs =
    (recent : List ConnectivitySample) × (rest : List ConnectivitySample) × (cs ≡ recent ++ rest)
    × All (λ c. recovers c ≡ false) recent
    × (slow_limit cfg ≤ slow_run cfg rest)

judge_degraded :
    (cfg : TransferCheckConfig) (at : ℕ) (c : ConnectivitySample) (g : TransferGuard)
    → (judge cfg at c g).degraded ≡ true
    → ((recovers c ≡ false) × (g.degraded ≡ true))
      ⊎ (slow_limit cfg ≤ (judge cfg at c g).slow_streak)
unfolding judge
judge_degraded cfg at c g h = ground arith

Degrading-cons :
    (cfg : TransferCheckConfig) (c : ConnectivitySample) (cs : List ConnectivitySample)
    → recovers c ≡ false
    → Degrading cfg cs
    → Degrading cfg (c ∷ cs)
Degrading-cons cfg c cs h (recent, rest, e, quiet, run) =
    (c ∷ recent, rest, ap (λ ds. c ∷ ds) e, (h, quiet), run)

-- If the guard is degraded, then at some time as many slow samples followed one another as the
-- configuration asks for, without a gap longer than the interval, and no sample since then was
-- good. (The guard of a replay from no samples.)
pub degraded_needs_run :
    (cfg : TransferCheckConfig) (cs : List ConnectivitySample)
    → (replay cfg cs (cleared 0)).0.degraded ≡ true
    → Degrading cfg cs
unfolding replay
degraded_needs_run cfg [] h = cc
degraded_needs_run cfg (c ∷ cs) h =
    let (older, at) = replay cfg cs (cleared 0) in
    elim (judge_degraded cfg at c older h) [
      | inl carried ↦ Degrading-cons cfg c cs carried.0 (degraded_needs_run cfg cs carried.1)
      | inr run ↦ ([], c ∷ cs, refl, tt, rw (sym (replay-slow_run cfg (c ∷ cs))) run)
    ]

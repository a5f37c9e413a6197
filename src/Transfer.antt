-- ===== src/Transfer.antt =====
-- The transfer guard: `CheckTransfer` of internal/observer/observer.go, and its state in
-- internal/app/runner.go. The guard's mutex makes each call one step.
pub mod Restart
pub mod Degraded
use upag.Base.{
  ℕ, suc, ◌-◌, ◌*◌, String, List, [], ◌∷◌, Bool, true, false, not, ◌&&◌, ◌||◌, ltb, leb, ℤ, pos,
  positive_or, Fallible, ok, err, ◌==◌, nat_eq, string_eq, if◌then◌else◌, Option, none, some, ◌<>◌,
  decimal,
}
use upag.Storage.{ConnectivitySample}
use upag.Store.{Store, StoreError, Db}
use upag.Store.ObserverChecks.{list_connectivity_samples, save_connectivity_samples}

pub record TransferCheckConfig : Type 0 where
  pub enabled : Bool
  pub interval : ℤ
  pub incident_interval : ℤ
  pub slow_threshold : ℕ
  pub consecutive_slow_results : ℤ

-- The runner's `transferLastSample`, `transferSlowStreak` and `transferDegraded`.
pub record TransferGuard : Type 0 where
  pub last_sample : ℕ
  pub slow_streak : ℕ
  pub degraded : Bool

abbrev pub quarter_hour : ℕ
quarter_hour = 900 * 1_000_000_000

abbrev pub half_minute : ℕ
half_minute = 30 * 1_000_000_000

unfoldable pub transfer_guard_freshness_window : TransferCheckConfig → ℕ
transfer_guard_freshness_window cfg = 2 * positive_or cfg.interval quarter_hour

unfoldable pub transfer_guard_max_streak_gap : TransferCheckConfig → ℕ
transfer_guard_max_streak_gap cfg = positive_or cfg.interval quarter_hour

abbrev pub slow_limit : TransferCheckConfig → ℕ
slow_limit cfg = positive_or cfg.consecutive_slow_results 2

unfoldable pub transfer_sample_is_slow : ConnectivitySample → Bool
transfer_sample_is_slow c =
    c.slow && (c.observed_status_code == 0 || c.observed_status_code == c.expected_status_code)

-- What one sample makes of the guard, the same in `sampleTransfer` and `restoreTransferGuard`: a
-- gap since the sample at `previous_at` ends the streak before the sample is judged.
unfoldable pub judge : TransferCheckConfig → ℕ → ConnectivitySample → TransferGuard → TransferGuard
unfolding transfer_guard_max_streak_gap transfer_sample_is_slow
judge cfg previous_at c g =
    let gap =
      not (previous_at == 0)
      && ltb (transfer_guard_max_streak_gap cfg) (c.checked_at - previous_at) in
    let streak = if gap then 0 else g.slow_streak in
    if transfer_sample_is_slow c
    then record g {
      slow_streak = suc streak;
      degraded = if leb (slow_limit cfg) (suc streak) then true else g.degraded;
    }
    else if c.ok
    then record g { slow_streak = 0; degraded = false }
    else record g { slow_streak = 0 }

-- The loop of `restoreTransferGuard`, over samples with the newest first, and `previousAt` after it.
unfoldable pub replay :
    TransferCheckConfig → List ConnectivitySample → TransferGuard → TransferGuard × ℕ
unfolding judge
replay cfg [] g = (g, 0)
replay cfg (c ∷ cs) g =
    let (older, previous_at) = replay cfg cs g in (judge cfg previous_at c older, c.checked_at)

abbrev pub cleared : ℕ → TransferGuard
cleared last_sample = record { last_sample = last_sample; slow_streak = 0; degraded = false }

unfoldable pub restored : TransferCheckConfig → ℕ → List ConnectivitySample → TransferGuard
unfolding replay transfer_guard_freshness_window
restored cfg now [] = cleared 0
restored cfg now (c ∷ cs) =
    if ltb (transfer_guard_freshness_window cfg) (now - c.checked_at)
    then cleared c.checked_at
    else (replay cfg (c ∷ cs) (cleared c.checked_at)).0

abbrev pub restore_from :
    TransferCheckConfig
    → ℕ
    → Fallible StoreError (List ConnectivitySample)
    → TransferGuard
    → TransferGuard
restore_from cfg now (ok samples) g = restored cfg now samples
restore_from cfg now (err e) g = g

unfoldable pub restore_transfer_guard :
    Db → TransferCheckConfig → ℕ → Store → TransferGuard → TransferGuard
unfolding restored
restore_transfer_guard db cfg now s g =
    let since = now - transfer_guard_freshness_window cfg in
    if not cfg.enabled
    then g
    else restore_from cfg now (list_connectivity_samples db "transfer" since (pos 1000) s).1 g

-- What the HTTP client reports of the request: no request, no answer (after so many milliseconds),
-- or an answer with its status code, the bytes of its body, an error in reading it, and the
-- milliseconds and nanoseconds that it took.
pub data Transfer : Type 0 where
  bad_request : String → ℕ → Transfer
  no_answer : String → ℕ → Transfer
  answer : ℕ → ℕ → Option String → ℕ → ℕ → ℕ → Transfer

abbrev pub transfer_bytes : ℕ
transfer_bytes = 100_000

abbrev blank : String → String → ℕ → ConnectivitySample
blank source monitor_id now = record {
  id = 0;
  kind = "transfer";
  source = source;
  target_id = "cloudflare-100kb";
  target_name = "Cloudflare 100 KB transfer";
  url = "https://speed.cloudflare.com/__down?bytes=100000";
  monitor_id = monitor_id;
  ok = false;
  slow = false;
  expected_status_code = 200;
  observed_status_code = 0;
  latency_ms = 0;
  response_time_ms = 0;
  bytes_read = 0;
  error = "";
  checked_at = now;
}

abbrev pub read_body :
    TransferCheckConfig → ConnectivitySample → ℕ → Option String → ℕ → ConnectivitySample
read_body cfg sample bytes (some e) elapsed = record sample {
  error = "read transfer response: " <> e;
  slow = true;
}
read_body cfg sample bytes none elapsed =
    if not (bytes == transfer_bytes)
    then record sample {
      error = "expected " <> (decimal transfer_bytes <> (" bytes, received " <> decimal bytes));
      slow = true;
    }
    else record sample { ok = true; slow = ltb cfg.slow_threshold elapsed }

unfoldable pub check_transfer :
    TransferCheckConfig → String → String → ℕ → Transfer → ConnectivitySample
check_transfer cfg source monitor_id now (bad_request e ms) = record (blank source monitor_id now) {
  error = e;
  slow = true;
  response_time_ms = ms;
}
check_transfer cfg source monitor_id now (no_answer e ms) = record (blank source monitor_id now) {
  latency_ms = ms;
  error = e;
  response_time_ms = ms;
  slow = true;
}
check_transfer cfg source monitor_id now (answer code bytes failed latency ms elapsed) =
    let seen = record (blank source monitor_id now) {
      latency_ms = latency;
      observed_status_code = code;
      response_time_ms = ms;
    } in
    if not (code == 200)
    then record seen { error = "expected HTTP status 200, observed HTTP status " <> decimal code }
    else read_body cfg (record seen { bytes_read = bytes }) bytes failed elapsed

-- What a call of `sampleTransfer` meets: the clock, whether the caller is cancelled by the end of
-- the request, the answer, and whether the database stores the sample.
pub record Sampling : Type 0 where
  pub now : ℕ
  pub cancelled : Bool
  pub transfer : Transfer
  pub save_db : Db

-- The guard after the sample was stored, or not.
abbrev pub sampled :
    TransferCheckConfig
    → ConnectivitySample
    → Store × Fallible StoreError (Unit {0})
    → TransferGuard
    → Store × TransferGuard
sampled cfg c (s, err e) g = (s, g)
sampled cfg c (s, ok _) g = (s, record (judge cfg g.last_sample c g) { last_sample = c.checked_at })

-- The store and the guard afterwards; the result of the source is the guard's `degraded`, unless
-- the check is disabled.
unfoldable pub sample_transfer :
    Sampling → TransferCheckConfig → String → String → Store → TransferGuard → Store × TransferGuard
unfolding check_transfer judge
sample_transfer e cfg source monitor_id s g =
    let minimum =
      positive_or (if source == "scheduled" then cfg.interval else cfg.incident_interval)
        half_minute in
    let c = check_transfer cfg source monitor_id e.now e.transfer in
    if not cfg.enabled
    then (s, g)
    else if not (g.last_sample == 0) && ltb (e.now - g.last_sample) minimum
    then (s, g)
    else if e.cancelled
    then (s, g)
    else sampled cfg c (save_connectivity_samples e.save_db (c ∷ []) s) g

abbrev pub is_degraded : TransferCheckConfig → TransferGuard → Bool
is_degraded cfg g = if not cfg.enabled then false else g.degraded

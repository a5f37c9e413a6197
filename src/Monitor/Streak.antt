-- ===== src/Monitor/Streak.antt =====
-- A monitor over a whole history of probes, which is given newest first, each with its time.
use upag.Base.{
  ℕ, zero, suc, ◌≡◌, ◌≢◌, refl, List, [], ◌∷◌, arith, ℤ, le_of_nat, true, ◌==◌, if◌then◌else◌, inl,
  ◌⊎◌,
}
use upag.State.{Status, unset, unknown, failing, up, down, status_eq}
use upag.Storage.{MonitorState}
use upag.Checker.{Result}
use upag.Monitor.{evaluate}

-- The stored state after every probe of the history.
abbrev pub after : ℤ → MonitorState → List (Result × ℕ) → MonitorState
after threshold start [] = start
after threshold start ((r, now) ∷ earlier) =
    (evaluate (after threshold start earlier) r threshold now).next_state

-- The number of failures since the last success.
abbrev pub trailing_failures : List (Result × ℕ) → ℕ
trailing_failures [] = 0
trailing_failures ((r, now) ∷ earlier) =
    let n = trailing_failures earlier in if r.ok then 0 else suc n

-- The status that the documentation promises: it looks at the history only.
abbrev pub status_of_streak : ℤ → ℕ → Status
status_of_streak threshold zero = up
status_of_streak threshold (suc n) = if le_of_nat threshold (suc n) then down else failing

abbrev pub documented_status : ℤ → List (Result × ℕ) → Status
documented_status threshold [] = unknown
documented_status threshold (p ∷ earlier) =
    status_of_streak threshold (trailing_failures (p ∷ earlier))

abbrev pub IsNew : MonitorState → Type 0
IsNew s = (s.status ≡ unknown) × (s.consecutive_failures ≡ 0)

le_of_nat_mono : (t : ℤ) (n : ℕ) → le_of_nat t n ≡ true → le_of_nat t (suc n) ≡ true
le_of_nat_mono (ℤ.pos m) n h = ground arith
le_of_nat_mono (ℤ.negsuc m) n h = refl

-- What one probe makes of a state whose counter and status are those of a streak of `n`.
streak-step :
    (previous : MonitorState) (r : Result) (t : ℤ) (now n : ℕ)
    → previous.consecutive_failures ≡ n
    → (previous.status ≡ status_of_streak t n) ⊎ ((previous.status ≡ unknown) × (n ≡ 0))
    → let s = (evaluate previous r t now).next_state in
      let m = if r.ok then 0 else suc n in
      (s.consecutive_failures ≡ m) × (s.status ≡ status_of_streak t m)
unfolding evaluate
streak-step previous r t now zero c h = ground arith
streak-step previous r t now (suc n) c h = ground (arith, le_of_nat_mono t (suc n))

-- After any history of a new monitor the counter is the number of failures since the last
-- success, and the status is UNKNOWN before the first probe, UP if the last probe succeeded,
-- DOWN if the streak has reached the threshold and FAILING otherwise.
pub after_documented :
    (threshold : ℤ) (start : MonitorState) (history : List (Result × ℕ))
    → IsNew start
    → let s = after threshold start history in
      (s.consecutive_failures ≡ trailing_failures history)
      × (s.status ≡ documented_status threshold history)
after_documented t start [] new = (new.1, new.0)
after_documented t start ((r, now) ∷ []) new = ground (arith, streak-step start r t now 0)
after_documented t start ((r, now) ∷ p ∷ earlier) new =
    let ih = after_documented t start (p ∷ earlier) new in
    streak-step (after t start (p ∷ earlier)) r t now (trailing_failures (p ∷ earlier)) ih.0
      (inl ih.1)

-- The incidents of a history, newest first.
abbrev pub incidents : ℤ → MonitorState → List (Result × ℕ) → List Status
incidents threshold start [] = []
incidents threshold start ((r, now) ∷ earlier) =
    let rest = incidents threshold start earlier in
    let t = (evaluate (after threshold start earlier) r threshold now).incident_transition in
    if t == unset then rest else t ∷ rest

-- DOWN and UP take turns, newest first, and the oldest is DOWN.
abbrev pub Alternates : List Status → Type 0
Alternates [] = Unit
Alternates (t ∷ []) = t ≡ down
Alternates (t ∷ u ∷ ts) = (((t ≡ down) × (u ≡ up)) ⊎ ((t ≡ up) × (u ≡ down))) × Alternates (u ∷ ts)

abbrev pub HeadAgrees : MonitorState → List Status → Type 0
HeadAgrees s [] = s.status ≢ down
HeadAgrees s (t ∷ ts) = (t ≡ down) × (s.status ≡ down) ⊎ (t ≡ up) × (s.status ≢ down)

incidents-step :
    (previous : MonitorState) (r : Result) (t : ℤ) (now : ℕ) (older : List Status)
    → HeadAgrees previous older
    → Alternates older
    → let e = evaluate previous r t now in
      let newer = if e.incident_transition == unset then older else e.incident_transition ∷ older in
      HeadAgrees e.next_state newer × Alternates newer
unfolding evaluate
incidents-step previous r t now [] h a = ground arith
incidents-step previous r t now (u ∷ us) h a = ground arith

-- Over any history that starts out of DOWN the incidents alternate between DOWN and UP, the
-- oldest is DOWN, and the latest one says whether the monitor is DOWN now.
pub incidents_alternate :
    (threshold : ℤ) (start : MonitorState) (history : List (Result × ℕ))
    → start.status ≢ down
    → HeadAgrees (after threshold start history) (incidents threshold start history)
      × Alternates (incidents threshold start history)
incidents_alternate t start [] h = (h, tt)
incidents_alternate t start ((r, now) ∷ earlier) h =
    let ih = incidents_alternate t start earlier h in
    incidents-step (after t start earlier) r t now (incidents t start earlier) ih.0 ih.1

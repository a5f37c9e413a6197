-- ===== src/Availability/Points.antt =====
-- The measure that downtime is held against: how many nanoseconds of a window pass a test.
use upag.Base.{
  ℕ, zero, suc, ◌+◌, ◌-◌, ◌≤◌, ◌≡◌, refl, Bool, true, false, not, ◌&&◌, ◌||◌, List, ltb, leb,
  if◌then◌else◌, any, arith, Bool-cases, inl, inr,
}
use upag.Availability.{TimeInterval}

-- The instant lies in the interval, which includes its start and not its end.
abbrev pub contains : ℕ → TimeInterval → Bool
contains t i = leb i.start t && ltb t i.end

abbrev pub covered : List TimeInterval → ℕ → Bool
covered is t = any (contains t) is

-- How many of the `n` instants from `start` on pass the test.
abbrev pub points : (ℕ → Bool) → ℕ → ℕ → ℕ
points p start zero = 0
points p start (suc n) = let rest = points p (suc start) n in if p start then suc rest else rest

pub points-le : (p : ℕ → Bool) (start n : ℕ) → points p start n ≤ n
points-le p start zero = omega arith
points-le p start (suc n) = ground (arith, points-le p (suc start) n)

pub points_split :
    (p q : ℕ → Bool) (start n : ℕ)
    → points p start n ≡ points (λ t. p t && q t) start n + points (λ t. p t && not (q t)) start n
points_split p q start zero = omega arith
points_split p q start (suc n) = ground (arith, points_split p q (suc start) n)

pub points_union :
    (p q : ℕ → Bool) (start n : ℕ)
    → ((t : ℕ) → p t ≡ true → q t ≡ false)
    → points (λ t. p t || q t) start n ≡ points p start n + points q start n
points_union p q start zero h = omega arith
points_union p q start (suc n) h = ground (arith, h start, points_union p q (suc start) n h)

pub points_ext :
    (p q : ℕ → Bool) (start n : ℕ) → ((t : ℕ) → p t ≡ q t) → points p start n ≡ points q start n
points_ext p q start zero h = refl
points_ext p q start (suc n) h = ground (arith, h start, points_ext p q (suc start) n h)

-- The instants of one interval within a window.
pub points-contains :
    (i : TimeInterval) (start n : ℕ)
    → points (λ t. contains t i) start n
      ≡ (if ltb (start + n) i.end then start + n else i.end)
        - (if ltb i.start start then start else i.start)
points-contains i start zero = ground arith
points-contains i start (suc n) = ground (arith, points-contains i (suc start) n)

points_later :
    (p : ℕ → Bool) (k start later n m : ℕ)
    → start + k ≡ later
    → k + n ≡ m
    → points p later n ≤ points p start m
points_later p zero start later n m e f =
    let same : later ≡ start = omega arith in
    let all_of : m ≡ n = omega arith in rw (same, all_of) (omega arith)
points_later p (suc k) start later n zero e f = absurd (omega arith)
points_later p (suc k) start later n (suc m) e f =
    ground (arith, points_later p k (suc start) later n m (omega arith) (omega arith))

-- A range that starts earlier and ends at the same instant holds as many points at least.
pub points_earlier :
    (p : ℕ → Bool) (start later now : ℕ)
    → start ≤ later
    → points p later (now - later) ≤ points p start (now - start)
points_earlier p start later now h = elim (Bool-cases (leb later now)) [
  | inl e ↦
      points_later p (later - start) start later (now - later) (now - start) (ground arith)
        (ground arith)
  | inr e ↦ let none : now - later ≡ 0 = ground arith in rw none (omega arith)
]

-- ===== src/Config/Valid.antt =====
-- The tests of `Validate` in internal/config/config.go, read as propositions.
pub mod Sections
pub mod Senders
pub mod Providers
pub mod Tenant
pub mod Addresses
pub mod Observer
pub mod Assertions
pub mod Monitors
pub mod Whole
use upag.Base.{
  ◌==◌, string_eq, eq_iff, Bool-cases, inl, inr, ℕ, zero, suc, String, List, [], ◌∷◌, ◌++◌, Bool,
  true, false, not, ◌&&◌, ◌||◌, Option, none, some, ℤ, pos, negsuc, le_of_nat, lt_of_nat,
  is_positive, is_zero, AtLeast, AtMost, lt_of_nat_iff, positive_iff, not-le_of_nat_iff, is_empty,
  trim_space, if◌then◌else◌, All, ◌≡◌, ◌≢◌, ◌↔◌, refl, ap, arith, ◌<>◌,
}
use upag.Config.{is_nil}
use upag.Config.Validate.{when, only_if, on_error, collect}

pub iff_trans {ℓ κ μ} : {A : Type ℓ} {B : Type κ} {C : Type μ} → A ↔ B → B ↔ C → A ↔ C
iff_trans f g = (λ a. g.0 (f.0 a), λ c. f.1 (g.1 c))

pub pointwise {ℓ κ μ} : {A : Type ℓ} {B : Type κ} {C : Type μ} → B ↔ C → (A → B) ↔ (A → C)
pointwise f = (λ g a. f.0 (g a), λ g a. f.1 (g a))

-- `if bad { return err }` before the rest.
pub refuse_iff :
    (bad : Bool) (e : String) (rest : Option String)
    → ((if bad then some e else rest) ≡ none) ↔ ((bad ≡ false) × (rest ≡ none))
refuse_iff true e rest = (λ h. absurd (ground arith), λ h. absurd (ground arith))
refuse_iff false e rest = (λ h. (refl, h), λ h. h.1)

pub same_iff : (s t : String) → (not (s == t) ≡ false) ↔ (s ≡ t)
same_iff s t = elim (Bool-cases (s == t)) [
  | inl e ↦ (λ _. (eq_iff s t).0 e, λ _. rw e)
  | inr e ↦ (λ h. absurd (ground arith), λ h. ground (arith, (eq_iff s t).1 h))
]

append-nil_both : (xs ys : List String) → xs ++ ys ≡ [] → (xs ≡ []) × (ys ≡ [])
append-nil_both [] ys h = (refl, h)
append-nil_both (x ∷ xs) ys h = ground arith

pub append-nil_iff : (xs ys : List String) → (xs ++ ys ≡ []) ↔ ((xs ≡ []) × (ys ≡ []))
append-nil_iff xs ys = (append-nil_both xs ys, λ h. rw (h.0, h.1))

pub collect-nil_iff :
    (errs : List (List String)) → (collect errs ≡ []) ↔ All (λ (e : List String). e ≡ []) errs
unfolding collect
collect-nil_iff [] = (λ _. tt, λ _. refl)
collect-nil_iff (e ∷ errs) = (
  λ h. let both = append-nil_both e (collect errs) h in (both.0, (collect-nil_iff errs).0 both.1),
  λ h. rw (h.0, (collect-nil_iff errs).1 h.1),
)

-- A function of several tests, by what each of them asks.
pub collects {κ} :
    {C : Type κ} (errs : List (List String))
    → (All (λ (e : List String). e ≡ []) errs → C)
    → (C → All (λ (e : List String). e ≡ []) errs)
    → (collect errs ≡ []) ↔ C
collects errs f g = iff_trans (collect-nil_iff errs) (f, g)

pub when-nil_iff : (bad : Bool) (m : String) → (when bad m ≡ []) ↔ (bad ≡ false)
when-nil_iff true m = ground arith
when-nil_iff false m = ground arith

pub only_if-nil_iff :
    (b : Bool) (errs : List String) → (only_if b errs ≡ []) ↔ ((b ≡ true) → errs ≡ [])
only_if-nil_iff true errs = (λ h _. h, λ h. h refl)
only_if-nil_iff false errs = (λ _ e. ground arith, λ _. refl)

pub on_error-nil_iff :
    (context : String) (e : Option String) → (on_error context e ≡ []) ↔ (e ≡ none)
on_error-nil_iff context none = (λ _. refl, λ _. refl)
on_error-nil_iff context (some e) = ground arith

pub positive_test : (z : ℤ) (m : String) → (when (le_of_nat z 0) m ≡ []) ↔ AtLeast 1 z
positive_test z m = iff_trans (when-nil_iff _ m) (positive_iff z)

pub natural_test : (z : ℤ) (m : String) → (when (lt_of_nat z 0) m ≡ []) ↔ AtLeast 0 z
natural_test z m = iff_trans (when-nil_iff _ m) (lt_of_nat_iff z 0)

pub is_positive_iff : (z : ℤ) → (is_positive z ≡ true) ↔ AtLeast 1 z
is_positive_iff (pos n) = ground arith
is_positive_iff (negsuc n) = ground arith

pub is_empty_iff : (s : String) → (is_empty s ≡ false) ↔ (s ≢ "")
is_empty_iff String.[] = (λ e. ground arith, λ h. absurd (h refl))
is_empty_iff (String.◌∷◌ c s) = (λ e same. ground (arith, ap is_empty same), λ _. refl)

pub given_test : (s : String) (m : String) → (when (is_empty s) m ≡ []) ↔ (s ≢ "")
given_test s m = iff_trans (when-nil_iff _ m) (is_empty_iff s)

pub is_nil_iff {ℓ} : {A : Type ℓ} (xs : List A) → (is_nil xs ≡ false) ↔ (xs ≢ [])
is_nil_iff [] = (λ e. ground arith, λ h. absurd (h refl))
is_nil_iff (x ∷ xs) = (λ e same. ground (arith, ap is_nil same), λ _. refl)

pub some_test {ℓ} : {A : Type ℓ} (xs : List A) (m : String) → (when (is_nil xs) m ≡ []) ↔ (xs ≢ [])
some_test xs m = iff_trans (when-nil_iff _ m) (is_nil_iff xs)

-- `lo <= z && z <= hi`.
abbrev pub Within : ℕ → ℕ → ℤ → Type 0
Within lo hi z = AtLeast lo z × AtMost hi z

or-false_iff : (a b : Bool) → (a || b ≡ false) ↔ ((a ≡ false) × (b ≡ false))
or-false_iff true b = ground arith
or-false_iff false b = ground arith

pub range_test :
    (z : ℤ) (lo hi : ℕ) (m : String)
    → (when (lt_of_nat z lo || not (le_of_nat z hi)) m ≡ []) ↔ Within lo hi z
range_test z lo hi m = iff_trans (when-nil_iff _ m) (
    iff_trans (or-false_iff _ _) (
      λ h. ((lt_of_nat_iff z lo).0 h.0, (not-le_of_nat_iff z hi).0 h.1),
      λ h. ((lt_of_nat_iff z lo).1 h.0, (not-le_of_nat_iff z hi).1 h.1),
    ))

-- A port from 1: the source asks whether it is at most 0.
pub port_test :
    (z : ℤ) (m : String)
    → (when (le_of_nat z 0 || not (le_of_nat z 65535)) m ≡ []) ↔ Within 1 65535 z
port_test z m = iff_trans (when-nil_iff _ m) (
    iff_trans (or-false_iff _ _) (
      λ h. ((positive_iff z).0 h.0, (not-le_of_nat_iff z 65535).0 h.1),
      λ h. ((positive_iff z).1 h.0, (not-le_of_nat_iff z 65535).1 h.1),
    ))

abbrev pub NotBlank : String → Type 0
NotBlank s = trim_space s ≢ ""

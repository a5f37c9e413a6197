-- ===== src/Config/Texts.antt =====
-- Texts as internal/config/config.go looks at them.
use upag.Base.{
  String, List, [], ◌∷◌, Bool, false, ◌||◌, ◌==◌, string_eq, All, ◌≡◌, ◌≢◌, ◌↔◌, refl, arith,
  eq_iff,
}

-- Membership in a set that a Go map stands for.
unfoldable pub contains : String → List String → Bool
contains s [] = false
contains s (x ∷ xs) = x == s || contains s xs

-- `s` is none of the texts.
abbrev pub Absent : String → List String → Type 0
Absent s xs = All (λ x. x ≢ s) xs

pub contains-Absent_iff : (s : String) (xs : List String) → (contains s xs ≡ false) ↔ Absent s xs
unfolding contains
contains-Absent_iff s [] = (λ _. tt, λ _. refl)
contains-Absent_iff s (x ∷ xs) = (
  λ e. (λ same. ground (arith, eq_iff x s), (contains-Absent_iff s xs).0 (ground arith)),
  λ h. ground (arith, eq_iff x s, (contains-Absent_iff s xs).1 h.1),
)

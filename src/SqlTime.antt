-- ===== src/SqlTime.antt =====
-- `formatTime` of internal/storage/storage.go, and the comparison of such texts in SQLite. Go's
-- RFC3339Nano drops the trailing zeros of the fraction, and the columns compare as texts. The date
-- and time down to the second has a fixed width, and its texts compare as the seconds do (for
-- years below 10000), so it is one symbol here; the fraction is spelled out.
pub mod Order
use upag.Base.{
  ℕ, ◌+◌, ◌≡◌, refl, zero, suc, ◌/◌, ◌%◌, ◌*◌, Bool, true, false, not, List, [], ◌∷◌, ◌++◌, ltb,
  if◌then◌else◌, ◌==◌, nat_eq,
}

abbrev pub nanos_per_second : ℕ
nanos_per_second = 1_000_000_000

-- The decimal digits of `f` billionths, at most `n` of them, without trailing zeros.
unfoldable pub fraction_digits : ℕ → ℕ → List ℕ
fraction_digits zero f = []
fraction_digits (suc n) f =
    let rest = fraction_digits n (f * 10 % nanos_per_second) in
    if f == 0 then [] else (b'0' + f * 10 / nanos_per_second) ∷ rest

unfoldable pub fraction_text : ℕ → List ℕ
unfolding fraction_digits
fraction_text f = if f == 0 then [] else b'.' ∷ fraction_digits 9 f

unfoldable pub format_time : ℕ → List ℕ
unfolding fraction_text
format_time t =
    if t == 0
    then []
    else (t / nanos_per_second) ∷ fraction_text (t % nanos_per_second) ++ b'Z' ∷ []

-- The order of texts.
abbrev pub text_lt : List ℕ → List ℕ → Bool
text_lt [] [] = false
text_lt [] (y ∷ ys) = true
text_lt (x ∷ xs) [] = false
text_lt (x ∷ xs) (y ∷ ys) =
    let rest = text_lt xs ys in if ltb x y then true else if ltb y x then false else rest

-- `a < b` and `a <= b` in SQL, for two columns or arguments that hold times.
unfoldable pub sql_lt : ℕ → ℕ → Bool
unfolding format_time
sql_lt a b = text_lt (format_time a) (format_time b)

unfoldable pub sql_le : ℕ → ℕ → Bool
unfolding sql_lt
sql_le a b = not (sql_lt b a)

half_second : format_time 1_500_000_000 ≡ 1 ∷ b'.' ∷ b'5' ∷ b'Z' ∷ []
unfolding format_time
half_second = refl

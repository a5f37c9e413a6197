-- ===== src/SqlTime/Order.antt =====
-- When the order of the texts is the order of the times.
use upag.Base.{ℕ, ◌+◌, ◌*◌, ◌/◌, ◌<◌, ◌≡◌, refl, true, false, List, [], ◌∷◌, arith}
use upag.SqlTime.{nanos_per_second, format_time, fraction_text, sql_lt, sql_le, text_lt}

-- The two times lie in different seconds.
abbrev pub SecondBefore : ℕ → ℕ → Type 0
SecondBefore a b = a / nanos_per_second < b / nanos_per_second

-- Times of different seconds compare as they should.
pub sql_lt_of_SecondBefore :
    (a b : ℕ) → SecondBefore a b → (sql_lt a b ≡ true) × (sql_lt b a ≡ false)
unfolding sql_lt format_time
sql_lt_of_SecondBefore a b h = ground arith

-- Within one second the whole second sorts behind every fraction of it.
pub sql_lt_reversed :
    (s f : ℕ)
    → 0 < s
    → 0 < f
    → f < nanos_per_second
    → (sql_lt (s * nanos_per_second + f) (s * nanos_per_second) ≡ true)
      × (sql_lt (s * nanos_per_second) (s * nanos_per_second + f) ≡ false)
unfolding sql_lt format_time fraction_text
sql_lt_reversed s f hs hf h = ground arith

text_lt_irrefl : (xs : List ℕ) → text_lt xs xs ≡ false
text_lt_irrefl [] = refl
text_lt_irrefl (x ∷ xs) = ground (arith, text_lt_irrefl xs)

text_lt_of_le_lt : (a b c : List ℕ) → text_lt b a ≡ false → text_lt b c ≡ true → text_lt a c ≡ true
text_lt_of_le_lt [] [] c h k = k
text_lt_of_le_lt [] (b ∷ bs) [] h k = cc
text_lt_of_le_lt [] (b ∷ bs) (c ∷ cs) h k = refl
text_lt_of_le_lt (a ∷ as') [] c h k = cc
text_lt_of_le_lt (a ∷ as') (b ∷ bs) [] h k = cc
text_lt_of_le_lt (a ∷ as') (b ∷ bs) (c ∷ cs) h k = ground (arith, text_lt_of_le_lt as' bs cs)

-- The order of the texts is transitive, whatever it does to the times.
pub sql_lt_of_le_lt : (a b c : ℕ) → sql_le a b ≡ true → sql_lt b c ≡ true → sql_lt a c ≡ true
unfolding sql_le
sql_lt_of_le_lt a b c h k =
    text_lt_of_le_lt (format_time a) (format_time b) (format_time c) (ground arith) k

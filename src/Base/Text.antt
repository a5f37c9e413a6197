-- ===== src/Base/Text.antt =====
-- Texts of the source: Go's `string`, its emptiness test and the `%d` of `fmt.Sprintf`.
use Prim.Native.Nat.{ℕ, zero, suc, ◌/◌, ◌%◌}
use Prim.Native.Char.{code}
use Prim.Native.String.{String, ◌++◌}
use mathlib.Core.Path.{◌≡◌, refl}
use mathlib.Core.Bool.{Bool, true, false, not, ◌&&◌, ◌||◌}
use mathlib.Core.List.{List}
use native.Mathlib.Omega.{arith}
use upag.Base.Lists.{all}
use upag.Base.Tests.{ltb, leb, ◌==◌, nat_eq, if◌then◌else◌}

infixr 65 ◌<>◌
-- Texts joined, under a name that leaves `++` to the lists.
abbrev pub ◌<>◌ : String → String → String
s <> t = s ++ t

abbrev pub is_empty : String → Bool
is_empty String.[] = true
is_empty (String.◌∷◌ c s) = false

abbrev digit : ℕ → String
digit zero = "0"
digit (suc zero) = "1"
digit (suc (suc zero)) = "2"
digit (suc (suc (suc zero))) = "3"
digit (suc (suc (suc (suc zero)))) = "4"
digit (suc (suc (suc (suc (suc zero))))) = "5"
digit (suc (suc (suc (suc (suc (suc zero)))))) = "6"
digit (suc (suc (suc (suc (suc (suc (suc zero))))))) = "7"
digit (suc (suc (suc (suc (suc (suc (suc (suc zero)))))))) = "8"
digit _ = "9"

decimal_from : ℕ → ℕ → String
decimal_from zero n = ""
decimal_from (suc fuel) n =
    let rest = decimal_from fuel (n / 10) in if ltb n 10 then digit n else (rest <> digit (n % 10))

-- `%d` of a number that is not negative: `n + 1` rounds are enough for its digits.
unfoldable pub decimal : ℕ → String
unfolding decimal_from
decimal n = decimal_from (suc n) n

decimal_404 : decimal 404 ≡ "404"
unfolding decimal
decimal_404 = refl

-- `strings.Join`.
abbrev pub join : String → List String → String
join sep List.[] = ""
join sep (List.◌∷◌ s List.[]) = s
join sep (List.◌∷◌ s (List.◌∷◌ t ts)) = s <> (sep <> join sep (List.◌∷◌ t ts))

-- `unicode.IsSpace`.
abbrev pub is_space : ℕ → Bool
is_space c =
    (leb 9 c && leb c 13)
    || c == 32
    || c == 0x85
    || c == 0xA0
    || c == 0x1680
    || (leb 0x2000 c && leb c 0x200A)
    || c == 0x2028
    || c == 0x2029
    || c == 0x202F
    || c == 0x205F
    || c == 0x3000

abbrev pub codes : String → List ℕ
codes String.[] = List.[]
codes (String.◌∷◌ c s) = List.◌∷◌ (code c) (codes s)

trim_left : String → String
trim_left String.[] = String.[]
trim_left (String.◌∷◌ c s) =
    let rest = trim_left s in if is_space (code c) then rest else String.◌∷◌ c s

trim_right : String → String
trim_right String.[] = String.[]
trim_right (String.◌∷◌ c s) =
    let rest = trim_right s in
    if is_space (code c) && is_empty rest then String.[] else String.◌∷◌ c rest

-- `strings.TrimSpace`.
unfoldable pub trim_space : String → String
unfolding trim_left trim_right
trim_space s = trim_right (trim_left s)

trim_space_both : trim_space " a b  " ≡ "a b"
unfolding trim_space
trim_space_both = refl

pub trim_space-nil : trim_space "" ≡ ""
unfolding trim_space
trim_space-nil = refl

trim_left-id : (s : String) → all (λ c. not (is_space c)) (codes s) ≡ true → trim_left s ≡ s
unfolding trim_left
trim_left-id String.[] h = refl
trim_left-id (String.◌∷◌ c s) h = ground arith

trim_right-id : (s : String) → all (λ c. not (is_space c)) (codes s) ≡ true → trim_right s ≡ s
unfolding trim_right
trim_right-id String.[] h = refl
trim_right-id (String.◌∷◌ c s) h = ground (arith, trim_right-id s)

-- A text without spaces is its own trimming.
pub trim_space-id : (s : String) → all (λ c. not (is_space c)) (codes s) ≡ true → trim_space s ≡ s
unfolding trim_space
trim_space-id s h = rw (trim_left-id s h) (trim_right-id s h)

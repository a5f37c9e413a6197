-- ===== src/Config/Retention.antt =====
-- `RetentionDuration.UnmarshalYAML` of internal/config/config.go: a duration with the units `d` and
-- `y` besides Go's own, or `forever`. The multiplications are those of Go's int64.
use Prim.Native.Char.{code}
use Prim.Native.String.{String}
use upag.Base.{
  ℕ, suc, ◌-◌, ◌*◌, ◌%◌, ◌^◌, ◌<◌, true, false, ◌||◌, ltb, Option, none, some, ℤ, pos, negsuc,
  Fallible, ok, ◌>>=◌, ◌==◌, nat_eq, string_eq, if◌then◌else◌, ◌<>◌, trim_space, ◌≡◌, ◌↔◌, refl,
  arith, eq_iff, Bool-cases, ap, sym, inl, inr, ◌∙◌,
}
use upag.Config.{RetentionDuration}

-- The value of an int64 that overflows: two's complement.
unfoldable pub int64 : ℤ → ℤ
int64 (pos n) = let r = n % 2 ^ 64 in if ltb r (2 ^ 63) then pos r else negsuc (2 ^ 64 - r - 1)
int64 (negsuc n) = let r = n % 2 ^ 64 in if ltb r (2 ^ 63) then negsuc r else pos (2 ^ 64 - r - 1)

-- `d * k` for a positive constant `k`.
unfoldable pub times : ℤ → ℕ → ℤ
unfolding int64
times (pos n) k = int64 (pos (n * k))
times (negsuc n) k = int64 (negsuc (suc n * k - 1))

-- `raw[:len(raw)-1]` and `raw[len(raw)-1]`, for texts that end in a character of one byte.
abbrev pub split_last : String → Option (String × ℕ)
split_last String.[] = none
split_last (String.◌∷◌ c s) = elim (split_last s) [
  | none ↦ some (String.[], code c)
  | some (front, last) ↦ some (String.◌∷◌ c front, last)
]

abbrev pub in_unit : ℕ → ℤ → ℤ
in_unit unit parsed = if unit == b'd' then times parsed 24 else times (times parsed 24) 365

-- `time.ParseDuration`, whose code is not the repository's, is given: a count of nanoseconds.
unfoldable pub unmarshal_retention :
    (String → Fallible String ℤ) → String → Fallible String RetentionDuration
unfolding times
unmarshal_retention parse_duration text =
    let raw = trim_space text in
    let plain =
      parse_duration raw >>= λ parsed. ok (record { duration = parsed; forever = false }) in
    let scaled = λ (front : String) (unit : ℕ).
      parse_duration (trim_space front <> "h") >>= λ parsed.
      ok (record { duration = in_unit unit parsed; forever = false }) in
    if raw == "forever"
    then ok (record { duration = pos 0; forever = true })
    else elim (split_last raw) [
      | none ↦ plain
      | some (front, unit) ↦ if unit == b'd' || unit == b'y' then scaled front unit else plain
    ]

times-exact_iff : (n k : ℕ) → (times (pos n) k ≡ pos (n * k)) ↔ (n * k < 2 ^ 63)
unfolding times
times-exact_iff n k = (λ e. ground arith, λ lt. ground arith)

wrapped : (n k : ℕ) → times (pos n) k ≡ int64 (pos (n * k))
unfolding times
wrapped n k = refl

module _ (parse_duration : String → Fallible String ℤ) (text front : String) (n : ℕ)
    (ends : split_last (trim_space text) ≡ some (front, b'd'))
    (parsed : parse_duration (trim_space front <> "h") ≡ ok (pos n)) where
  not_forever : (trim_space text == "forever") ≡ false
  not_forever = elim (Bool-cases (trim_space text == "forever")) [
    | inl e ↦
        let last : split_last (trim_space text) ≡ split_last "forever" =
          ap split_last ((eq_iff (trim_space text) "forever").0 e) in
        absurd (ground (arith, sym ends ∙ last))
    | inr e ↦ e
  ]

  in_days :
      unmarshal_retention parse_duration text
      ≡ ok (record { duration = times (pos n) 24; forever = false })
  unfolding unmarshal_retention
  in_days = rw (not_forever, ends, parsed)

  -- A retention in days whose number stands for `n` nanoseconds as hours is never refused: it is
  -- read as the int64 that `n * 24` wraps around to. That is `n * 24` itself exactly when this lies
  -- below 2^63; beyond, another duration is read without an error.
  pub unmarshal_retention-days_iff :
      (unmarshal_retention parse_duration text
        ≡ ok (record { duration = int64 (pos (n * 24)); forever = false }))
      × ((unmarshal_retention parse_duration text
            ≡ ok (record { duration = pos (n * 24); forever = false }))
          ↔ (n * 24 < 2 ^ 63))
  unmarshal_retention-days_iff = (
    rw (in_days, wrapped n 24),
    (
      λ e. (times-exact_iff n 24).0 (ground (arith, sym in_days ∙ e)),
      λ lt. rw in_days (rw ((times-exact_iff n 24).1 lt)),
    ),
  )

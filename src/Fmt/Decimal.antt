-- ===== src/Fmt/Decimal.antt =====
-- The digits that `%d` prints spell the number.
use mathlib.Core.List.{concat-ne-nil}
use komandgo.Base.{
  ℕ, zero, suc, ◌+◌, ◌-◌, ◌*◌, ◌/◌, ◌%◌, ◌≤◌, ◌≡◌, refl, ◌≢◌, [], ◌∷◌, ◌++◌, arith, Bytes, All,
  All-append, inl, inr, Bool-cases, ltb,
}
use komandgo.Fmt.{digits, format_decimal}

abbrev pub IsDigit : ℕ → Type 0
IsDigit c = (b'0' ≤ c) × (c ≤ b'9')

-- The number that digits spell behind `n`.
abbrev pub value : ℕ → Bytes → ℕ
value n [] = n
value n (c ∷ s) = value (n * 10 + (c - b'0')) s

pub value-append : (n : ℕ) (s t : Bytes) → value n (s ++ t) ≡ value (value n s) t
value-append n [] t = refl
value-append n (c ∷ s) t = value-append (n * 10 + (c - b'0')) s t

value-digits : (fuel n : ℕ) → n ≤ fuel → value 0 (digits fuel n) ≡ n
unfolding digits
value-digits zero n h = omega arith
value-digits (suc fuel) n h = ground (
  arith,
  value-append 0 (digits fuel (n / 10)) ((b'0' + n % 10) ∷ []),
  value-digits fuel (n / 10),
)

digits-IsDigit : (fuel n : ℕ) → All IsDigit (digits fuel n)
unfolding digits
digits-IsDigit zero n = omega arith
digits-IsDigit (suc fuel) n = elim (Bool-cases (ltb n 10)) [
  | inl small ↦ rw small (ground arith)
  | inr large ↦ rw large (All-append IsDigit _ _ (digits-IsDigit fuel (n / 10)) (omega arith))
]

-- Printing a number in decimal and reading the digits gives the number back.
pub value-format : (n : ℕ) → value 0 (format_decimal n) ≡ n
unfolding format_decimal
value-format n = value-digits n n (omega arith)

pub format-IsDigit : (n : ℕ) → All IsDigit (format_decimal n)
unfolding format_decimal
format-IsDigit n = digits-IsDigit n n

digits-ne-nil : (fuel n : ℕ) → digits fuel n ≢ []
unfolding digits
digits-ne-nil zero n = λ e. cc
digits-ne-nil (suc fuel) n = ground (arith, concat-ne-nil (b'0' + n % 10) (digits fuel (n / 10)))

pub format-ne-nil : (n : ℕ) → format_decimal n ≢ []
unfolding format_decimal
format-ne-nil n = digits-ne-nil n n

IsDigit-head :
    (s : Bytes) → s ≢ [] → All IsDigit s → (c : ℕ) × (ds : Bytes) × (s ≡ c ∷ ds) × IsDigit c
IsDigit-head [] h _ = absurd (h refl)
IsDigit-head (c ∷ ds) _ (hc, _) = (c, ds, refl, hc)

-- A printed number begins with a digit.
pub format-head : (n : ℕ) → (c : ℕ) × (ds : Bytes) × (format_decimal n ≡ c ∷ ds) × IsDigit c
format-head n = IsDigit-head (format_decimal n) (format-ne-nil n) (format-IsDigit n)

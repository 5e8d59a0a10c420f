-- ===== src/Fmt.antt =====
-- What the program uses of the printing half of Go's package `fmt`: the verbs `%d`, `%08b` and
-- `%016b` on unsigned numbers. The proofs are in the modules below.
pub mod Decimal
pub mod Scan
use komandgo.Base.{
  ℕ, zero, suc, ◌+◌, ◌*◌, ◌/◌, ◌%◌, ◌≡◌, refl, [], ◌∷◌, ◌++◌, Bytes, codes, ltb, if◌then◌else◌,
}

-- The decimal digits of `n`, given at least as much fuel as `n` has digits less one.
unfoldable pub digits : ℕ → ℕ → Bytes
digits zero n = (b'0' + n % 10) ∷ []
digits (suc fuel) n =
    let front = digits fuel (n / 10) in
    if ltb n 10 then (b'0' + n) ∷ [] else front ++ (b'0' + n % 10) ∷ []

-- `fmt.Sprintf("%d", n)`: `n` has at most `n` digits.
unfoldable pub format_decimal : ℕ → Bytes
unfolding digits
format_decimal n = digits n n

-- `fmt.Sprintf("%0wb", n)` for `n < 2 ^ w`: the `w` binary digits of `n`.
unfoldable pub format_binary : ℕ → ℕ → Bytes
format_binary zero n = []
format_binary (suc w) n = format_binary w (n / 2) ++ (b'0' + n % 2) ∷ []

decimal_runs : format_decimal 990099 ≡ codes "990099"
unfolding format_decimal
decimal_runs = refl

decimal_zero : format_decimal 0 ≡ codes "0"
unfolding format_decimal
decimal_zero = refl

binary_runs : format_binary 8 88 ≡ codes "01011000"
unfolding format_binary
binary_runs = refl

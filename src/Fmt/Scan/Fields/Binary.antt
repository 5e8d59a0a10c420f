-- ===== src/Fmt/Scan/Fields/Binary.antt =====
-- What `%0wb` reads back of the `w` binary digits that `Sprintf` printed.
use native.Mathlib.Nat.{pow-suc}
use komandgo.Base.{
  ℕ, zero, suc, ◌+◌, ◌-◌, ◌*◌, ◌/◌, ◌%◌, ◌^◌, ◌<◌, ◌≡◌, refl, ◌≢◌, Bool, true, false, List, [], ◌∷◌,
  ◌++◌, none, some, ap, ◌∙◌, arith, Bytes, length, All-append, length-append,
}
use komandgo.Fmt.{format_binary}
use komandgo.Io.{Read, reader, feed}
use komandgo.Fmt.Scan.{scan_bits, scan_unsigned, is_binary, number, source, got, fscanf}
use komandgo.Fmt.Scan.Fields.{Passes, take_digits-full, scan_unsigned-take_digits, fscanf-got_exact}

number-append :
    (base n : ℕ) (s t : Bytes) → number base n (s ++ t) ≡ number base (number base n s) t
number-append base n [] t = refl
number-append base n (c ∷ s) t = number-append base (n * base + (c - b'0')) s t

pub length-format_binary : (w n : ℕ) → length (format_binary w n) ≡ w
unfolding format_binary
length-format_binary zero n = refl
length-format_binary (suc w) n = omega (
  arith,
  length-append (format_binary w (n / 2)) ((b'0' + n % 2) ∷ []),
  length-format_binary w (n / 2),
)

pub format_binary-Passes : (w n : ℕ) → Passes is_binary (format_binary w n)
unfolding format_binary
format_binary-Passes zero n = tt
format_binary-Passes (suc w) n =
    All-append (λ c. is_binary c ≡ true) (format_binary w (n / 2)) ((b'0' + n % 2) ∷ [])
      (format_binary-Passes w (n / 2)) (ground arith)

-- The binary digits of `n` spell `n`, if it fits in them.
number-format_binary : (w n : ℕ) → n < 2 ^ w → number 2 0 (format_binary w n) ≡ n
unfolding format_binary
number-format_binary zero n h = omega arith
number-format_binary (suc w) n h = omega (
  arith,
  number-append 2 0 (format_binary w (n / 2)) ((b'0' + n % 2) ∷ []),
  number-format_binary w (n / 2) (omega (arith, pow-suc 2 w)),
)

scan_bits-digits :
    (p : Bool) (w : ℕ) (ds : Bytes) (rest : List Read)
    → ds ≢ []
    → Passes is_binary ds
    → length ds ≡ w
    → number 2 0 ds < 2 ^ w
    → scan_unsigned is_binary 2 w w (source p (feed ds rest))
      ≡ got (number 2 0 ds) (source false rest)
scan_bits-digits p w [] rest ne _ _ _ = absurd (ne refl)
scan_bits-digits p w (d ∷ ds) rest _ hd hl hv =
    scan_unsigned-take_digits is_binary 2 w w p d ds (feed ds rest) (source false rest)
      (ground arith) (rw (← hl) (take_digits-full is_binary (d ∷ ds) rest hd)) hv

-- A number of `w` bits is read back from its `w` binary digits, on a reader of either kind, and
-- nothing behind them is touched.
pub fscanf-bits :
    (q : Bool) (w n : ℕ) (rest : List Read)
    → 0 < w
    → n < 2 ^ w
    → fscanf (scan_bits w) (reader q (feed (format_binary w n) rest))
      ≡ (some n, none, reader q rest)
unfolding scan_bits
fscanf-bits q w n rest pos h = fscanf-got_exact (scan_bits w) q (feed (format_binary w n) rest) (
    scan_bits-digits false w (format_binary w n) rest
      (λ e. absurd (omega (arith, ap length e, length-format_binary w n)))
      (format_binary-Passes w n) (length-format_binary w n)
      (omega (arith, number-format_binary w n h))
    ∙ ap (λ m. got m (source false rest)) (number-format_binary w n h))

-- ===== src/Fmt/Scan/Fields.antt =====
-- What `Fscanf` reads back of numbers that `Sprintf` printed.
pub mod Binary
use native.Mathlib.Nat.{pow-suc}
use komandgo.Base.{
  ℕ, zero, suc, ◌+◌, ◌-◌, ◌*◌, ◌/◌, ◌%◌, ◌^◌, ◌≤◌, ◌<◌, ◌≡◌, refl, ◌≢◌, Bool, true, false, ◌&&◌,
  ◌||◌, not, List, [], ◌∷◌, ◌++◌, Option, none, some, append_assoc, append-nil, ap, ◌∙◌, arith,
  Bytes, length, All, All-append, length-append, ltb, leb, ◌==◌, lt→ltb, le→not_ltb, ne→not_==,
}
use komandgo.Fmt.{format_binary, format_decimal}
use komandgo.Fmt.Scan.{
  scan_sign, scan_signed, scan_count, scan_int, as_count, expect_space, more_space, expect,
  left_over, report, ◌>>◌, take_digits, front_digit, skip_space, scan_unsigned, not_eof,
  not_eof_from, at_least_one, scan_number, scan_bits, scan_uint32, fscanf, Scan, >>=-got, ◌>>=◌,
  is_binary, is_decimal, is_space, number, Source, source, Scanned, got, failed, huge_width,
  in_range,
}
use komandgo.Fmt.{digits}
use komandgo.Fmt.Decimal.{IsDigit, value, value-format, format-IsDigit, format-ne-nil}
use komandgo.Io.{GoError, Read, byte, nothing, fail, Reader, reader, feed}

abbrev pub Passes : (ℕ → Bool) → Bytes → Type 0
Passes ok = All (λ c. ok c ≡ true)

-- As many digits as the width allows: the byte behind them is not looked at.
take_digits-full :
    (ok : ℕ → Bool) (ds : Bytes) (rest : List Read)
    → Passes ok ds
    → take_digits ok (length ds) (feed ds rest) ≡ got ds (source false rest)
unfolding take_digits
take_digits-full ok [] rest _ = refl
take_digits-full ok (c ∷ ds) rest (hc, hds) = rw (hc, take_digits-full ok ds rest hds)

-- Fewer: the byte behind them is put back.
take_digits-stop :
    (ok : ℕ → Bool) (limit : ℕ) (ds : Bytes) (c : ℕ) (rest : List Read)
    → Passes ok ds
    → ok c ≡ false
    → length ds < limit
    → take_digits ok limit (feed ds (byte c ∷ rest)) ≡ got ds (source true (byte c ∷ rest))
unfolding take_digits
take_digits-stop ok zero ds c rest _ _ h = elim h [ ]
take_digits-stop ok (suc limit) [] c rest _ hc h = rw hc
take_digits-stop ok (suc limit) (d ∷ ds) c rest (hd, hds) hc h =
    rw (hd, take_digits-stop ok limit ds c rest hds hc (omega arith))

pub skip_space_lem :
    (p : Bool) (c : ℕ) (xs : List Read)
    → is_space c ≡ false
    → skip_space (source p (byte c ∷ xs)) ≡ got tt (source true (byte c ∷ xs))
unfolding skip_space
skip_space_lem p c xs h = ground arith

scan_number_lem :
    (ok : ℕ → Bool) (limit c : ℕ) (ds : Bytes) (xs : List Read) (s : Source)
    → take_digits ok limit (byte c ∷ xs) ≡ got (c ∷ ds) s
    → scan_number ok limit (source true (byte c ∷ xs)) ≡ got (c ∷ ds) s
unfolding not_eof not_eof_from at_least_one scan_number
scan_number_lem ok limit c ds xs s e =
    >>=-got (λ t. take_digits ok limit t.unread) at_least_one (source true (byte c ∷ xs)) e

in_range_lem : (bits n : ℕ) (s : Source) → n < 2 ^ bits → in_range bits n s ≡ got n s
unfolding in_range
in_range_lem bits n s h = rw (lt→ltb n (2 ^ bits) h)

-- A verb at a first digit: it reads on as `take_digits` does, and keeps what is in range.
scan_unsigned-take_digits :
    (ok : ℕ → Bool) (base limit bits : ℕ) (p : Bool) (c : ℕ) (ds : Bytes) (xs : List Read)
    (s : Source)
    → is_space c ≡ false
    → take_digits ok limit (byte c ∷ xs) ≡ got (c ∷ ds) s
    → number base 0 (c ∷ ds) < 2 ^ bits
    → scan_unsigned ok base limit bits (source p (byte c ∷ xs)) ≡ got (number base 0 (c ∷ ds)) s
unfolding scan_unsigned
scan_unsigned-take_digits ok base limit bits p c ds xs s hs e h =
    >>=-got skip_space (λ _. scan_number ok limit >>= λ t. in_range bits (number base 0 t))
      (source p (byte c ∷ xs)) (skip_space_lem p c xs hs)
    ∙ >>=-got (scan_number ok limit) (λ t. in_range bits (number base 0 t))
        (source true (byte c ∷ xs)) (scan_number_lem ok limit c ds xs s e)
    ∙ in_range_lem bits (number base 0 (c ∷ ds)) s h

IsDigit-Passes : (ds : Bytes) → All IsDigit ds → Passes is_decimal ds
IsDigit-Passes [] _ = tt
IsDigit-Passes (c ∷ ds) (hc, hds) = (ground arith, IsDigit-Passes ds hds)

number-value : (n : ℕ) (ds : Bytes) → number 10 n ds ≡ value n ds
number-value n [] = refl
number-value n (c ∷ ds) = number-value (n * 10 + (c - b'0')) ds

digits-length : (k fuel n : ℕ) → n < 10 ^ suc k → length (digits fuel n) ≤ suc k
unfolding digits
digits-length k zero n h = omega arith
digits-length zero (suc fuel) n h = rw (lt→ltb n 10 h) (omega arith)
digits-length (suc k) (suc fuel) n h = ground (
  arith,
  pow-suc 10 (suc k),
  digits-length k fuel (n / 10),
  length-append (digits fuel (n / 10)) ((b'0' + n % 10) ∷ []),
)

pub format_decimal-length : (n : ℕ) → n < 2 ^ 64 → length (format_decimal n) ≤ 20
unfolding format_decimal
format_decimal-length n h = digits-length 19 n n (omega arith)

-- A list of digits that ends at another byte, under a verb `%d`.
scan_uint32-digits :
    (p : Bool) (ds : Bytes) (c : ℕ) (rest : List Read)
    → ds ≢ []
    → All IsDigit ds
    → length ds ≤ 20
    → value 0 ds < 2 ^ 32
    → ¬ IsDigit c
    → scan_unsigned is_decimal 10 huge_width 32 (source p (feed ds (byte c ∷ rest)))
      ≡ got (value 0 ds) (source true (byte c ∷ rest))
scan_uint32-digits p [] c rest ne hd hl hv hc = absurd (ne refl)
scan_uint32-digits p (d ∷ ds) c rest ne hd hl hv hc = rw (← number-value 0 (d ∷ ds)) (
    scan_unsigned-take_digits is_decimal 10 huge_width 32 p d ds (feed ds (byte c ∷ rest))
      (source true (byte c ∷ rest)) (ground arith)
      (take_digits-stop is_decimal huge_width (d ∷ ds) c rest (IsDigit-Passes (d ∷ ds) hd)
        (ground arith) (omega arith))
      (omega (arith, number-value 0 (d ∷ ds))))

-- `%d` reads a printed `uint32` back, and puts the byte behind it back.
pub scan_uint32-format :
    (p : Bool) (n c : ℕ) (rest : List Read)
    → n < 2 ^ 32
    → ¬ IsDigit c
    → scan_uint32 (source p (feed (format_decimal n) (byte c ∷ rest)))
      ≡ got n (source true (byte c ∷ rest))
unfolding scan_uint32
scan_uint32-format p n c rest h hc =
    scan_uint32-digits p (format_decimal n) c rest (format-ne-nil n) (format-IsDigit n)
      (format_decimal-length n (omega arith)) (omega (arith, value-format n)) hc
    ∙ ap (λ m. got m (source true (byte c ∷ rest))) (value-format n)

as_count_lem : (n : ℕ) (s : Source) → n < 2 ^ 63 → as_count false n s ≡ got n s
unfolding as_count
as_count_lem n s h = rw (lt→ltb n (2 ^ 63) h)

scan_sign_lem :
    (p : Bool) (c : ℕ) (xs : List Read)
    → IsDigit c
    → scan_sign (source p (byte c ∷ xs)) ≡ got false (source true (byte c ∷ xs))
unfolding scan_sign
scan_sign_lem p c xs h = ground arith

not_eof_lem :
    (p : Bool) (c : ℕ) (xs : List Read)
    → not_eof (source p (byte c ∷ xs)) ≡ got tt (source true (byte c ∷ xs))
unfolding not_eof not_eof_from
not_eof_lem p c xs = refl

scan_signed-digits :
    (d : ℕ) (ds : Bytes) (c : ℕ) (rest : List Read)
    → All IsDigit (d ∷ ds)
    → length (d ∷ ds) ≤ 20
    → value 0 (d ∷ ds) < 2 ^ 63
    → ¬ IsDigit c
    → scan_signed false (source true (feed (d ∷ ds) (byte c ∷ rest)))
      ≡ got (value 0 (d ∷ ds)) (source true (byte c ∷ rest))
unfolding scan_signed
scan_signed-digits d ds c rest hd hl hv hc =
    let stop = source true (byte c ∷ rest) in
    >>=-got (scan_number is_decimal huge_width) (λ t. as_count false (number 10 0 t))
      (source true (feed (d ∷ ds) (byte c ∷ rest)))
      (scan_number_lem is_decimal huge_width d ds (feed ds (byte c ∷ rest)) stop (
        take_digits-stop is_decimal huge_width (d ∷ ds) c rest (IsDigit-Passes (d ∷ ds) hd)
          (ground arith) (omega arith)))
    ∙ as_count_lem (number 10 0 (d ∷ ds)) stop (omega (arith, number-value 0 (d ∷ ds)))
    ∙ ap (λ m. got m stop) (number-value 0 (d ∷ ds))

scan_int-digits :
    (p : Bool) (ds : Bytes) (c : ℕ) (rest : List Read)
    → ds ≢ []
    → All IsDigit ds
    → length ds ≤ 20
    → value 0 ds < 2 ^ 63
    → ¬ IsDigit c
    → scan_int (source p (feed ds (byte c ∷ rest))) ≡ got (value 0 ds) (source true (byte c ∷ rest))
unfolding scan_int
scan_int-digits p [] c rest ne hd hl hv hc = absurd (ne refl)
scan_int-digits p (d ∷ ds) c rest ne hd hl hv hc =
    let xs = byte d ∷ feed ds (byte c ∷ rest) in
    >>=-got skip_space (λ _. not_eof >> (scan_sign >>= scan_signed)) (source p xs)
      (skip_space_lem p d (feed ds (byte c ∷ rest)) (ground arith))
    ∙ >>=-got not_eof (λ _. scan_sign >>= scan_signed) (source true xs) (not_eof_lem true d _)
    ∙ >>=-got scan_sign scan_signed (source true xs) (scan_sign_lem true d _ hd.0)
    ∙ scan_signed-digits d ds c rest hd hl hv hc

-- `%d` reads a printed count back into an `int`, and puts the byte behind it back.
pub scan_count-format :
    (p : Bool) (n c : ℕ) (rest : List Read)
    → n < 2 ^ 63
    → ¬ IsDigit c
    → scan_count (source p (feed (format_decimal n) (byte c ∷ rest)))
      ≡ got n (source true (byte c ∷ rest))
unfolding scan_count
scan_count-format p n c rest h hc =
    scan_int-digits p (format_decimal n) c rest (format-ne-nil n) (format-IsDigit n)
      (format_decimal-length n (omega arith)) (omega (arith, value-format n)) hc
    ∙ ap (λ m. got m (source true (byte c ∷ rest))) (value-format n)

pub expect_space_lem :
    (p : Bool) (c : ℕ) (rest : List Read)
    → is_space c ≡ false
    → expect_space (source p (byte b' ' ∷ byte c ∷ rest)) ≡ got tt (source true (byte c ∷ rest))
unfolding expect_space
expect_space_lem p c rest h = ground arith

pub expect_lem :
    (p : Bool) (c : ℕ) (rest : List Read)
    → expect c (source p (byte c ∷ rest)) ≡ got tt (source false rest)
unfolding expect
expect_lem p c rest = ground arith

pub fscanf-got {ℓ} :
    {A : Type ℓ} (m : Scan A) (xs : List Read) {a : A} {s : Source}
    → m (source false xs) ≡ got a s
    → fscanf m (reader true xs) ≡ (some a, none, reader true s.unread)
unfolding fscanf
fscanf-got m xs e = ap (report true) e

pub fscanf-failed {ℓ} :
    {A : Type ℓ} (m : Scan A) (xs : List Read) {e : GoError} {s : Source}
    → m (source false xs) ≡ failed e s
    → fscanf m (reader true xs) ≡ (none, some e, reader true s.unread)
unfolding fscanf
fscanf-failed m xs h = ap (report true) h

report-tells {ℓ} :
    {A : Type ℓ} (q : Bool) (x : Scanned A) → (report q x).0 ≡ none → (report q x).1 ≢ none
report-tells q (got a s) e h = cc
report-tells q (failed d s) e h = cc

-- A call that gives no values gives an error.
pub fscanf-tells {ℓ} :
    {A : Type ℓ} (m : Scan A) (r : Reader) → (fscanf m r).0 ≡ none → (fscanf m r).1 ≢ none
unfolding fscanf
fscanf-tells m r = report-tells r.rune_scanner (m (source false r.input))

-- A reader that has put nothing back holds what the call left, of either kind.
pub fscanf-got_exact {ℓ} :
    {A : Type ℓ} (m : Scan A) (q : Bool) (xs : List Read) {a : A} {rest : List Read}
    → m (source false xs) ≡ got a (source false rest)
    → fscanf m (reader q xs) ≡ (some a, none, reader q rest)
unfolding fscanf
fscanf-got_exact m true xs e = ap (report true) e
fscanf-got_exact m false xs {rest = []} e = ap (report false) e
fscanf-got_exact m false xs {rest = x ∷ rest} e = ap (report false) e

-- A reader that cannot take a byte back has lost the one that was put back.
pub fscanf-got_lossy {ℓ} :
    {A : Type ℓ} (m : Scan A) (xs : List Read) {a : A} {c : ℕ} {rest : List Read}
    → m (source false xs) ≡ got a (source true (byte c ∷ rest))
    → fscanf m (reader false xs) ≡ (some a, none, reader false rest)
unfolding fscanf
fscanf-got_lossy m xs e = ap (report false) e

-- ===== src/Fmt/Scan.antt =====
-- What the program uses of the scanning half of Go's package `fmt`: `Fscanf` with the verbs `%d`,
-- `%08b` and `%016b`, spaces and literal bytes in its format. A rune is a byte here, which it is in
-- ASCII text. Each call is a chain of the steps below, run by `fscanf`.
pub mod Fields
use komandgo.Base.{
  ℕ, zero, suc, ◌+◌, ◌-◌, ◌*◌, ◌^◌, ◌≡◌, refl, Bool, true, false, ◌&&◌, ◌||◌, not, List, [], ◌∷◌,
  Option, none, some, ap, Bytes, codes, ltb, leb, ◌==◌, if◌then◌else◌,
}
use komandgo.Io.{
  GoError, eof, broken, scan_failed, unexpected_newline, expected_integer, out_of_range, no_match,
  expected_space, unexpected_eof, Read, byte, nothing, fail, Reader, feed, reader,
}

-- The unread input. `peeked` says that its first byte has been read and put back.
pub record Source : Type 0 where
  pub peeked : Bool
  pub unread : List Read

abbrev pub source : Bool → List Read → Source
source p xs = record { peeked = p; unread = xs }

pub data Scanned {ℓ} (A : Type ℓ) : Type ℓ where
  got : A → Source → Scanned A
  failed : GoError → Source → Scanned A

abbrev pub Scan {ℓ} : Type ℓ → Type ℓ
Scan A = Source → Scanned A

abbrev pub proceed {ℓ κ} : {A : Type ℓ} {B : Type κ} → (A → Scan B) → Scanned A → Scanned B
proceed f (got a s) = f a s
proceed f (failed e s) = failed e s

infixl 5 ◌>>=◌ ◌>>◌
abbrev pub ◌>>=◌ {ℓ κ} : {A : Type ℓ} {B : Type κ} → Scan A → (A → Scan B) → Scan B
◌>>=◌ m f s = proceed f (m s)

abbrev pub ◌>>◌ {ℓ} : {B : Type ℓ} → Scan (Unit {0}) → Scan B → Scan B
m >> k = m >>= λ _. k

-- A chain goes on from what its first step gives.
pub >>=-got {ℓ κ} :
    {A : Type ℓ} {B : Type κ} (m : Scan A) (f : A → Scan B) (s : Source) {s' : Source} {a : A}
    → m s ≡ got a s'
    → (m >>= f) s ≡ f a s'
>>=-got m f s e = ap (proceed f) e

pub >>=-failed {ℓ κ} :
    {A : Type ℓ} {B : Type κ} (m : Scan A) (f : A → Scan B) (s : Source) {s' : Source} {e : GoError}
    → m s ≡ failed e s'
    → (m >>= f) s ≡ failed e s'
>>=-failed m f s h = ap (proceed f) h

abbrev pub give {ℓ} : {A : Type ℓ} → A → Scan A
give a s = got a s

-- The white space of ASCII: tab to carriage return, and the blank.
abbrev pub is_space : ℕ → Bool
is_space c = (leb 9 c && leb c 13) || c == b' '

-- `SkipSpace`, where a newline is an error.
skip_spaces : List Read → Scanned (Unit {0})
skip_spaces [] = got tt (source false [])
skip_spaces (nothing ∷ xs) = skip_spaces xs
skip_spaces (fail e ∷ xs) = failed (broken e) (source false xs)
skip_spaces (byte c ∷ xs) =
    let on = skip_spaces xs in
    if c == 10
    then failed (scan_failed unexpected_newline) (source false xs)
    else if is_space c
    then on
    else got tt (source true (byte c ∷ xs))

-- The blanks behind a first one: here a newline ends them, and is put back.
more_space : List Read → Scanned (Unit {0})
more_space [] = got tt (source false [])
more_space (nothing ∷ xs) = more_space xs
more_space (fail e ∷ xs) = failed (broken e) (source false xs)
more_space (byte c ∷ xs) =
    let on = more_space xs in
    if is_space c && not (c == 10) then on else got tt (source true (byte c ∷ xs))

unfoldable pub skip_space : Scan (Unit {0})
unfolding skip_spaces
skip_space s = skip_spaces s.unread

abbrev front_digit : ℕ → Scanned Bytes → Scanned Bytes
front_digit c (got ds s) = got (c ∷ ds) s
front_digit c (failed e s) = failed e s

-- The digits at the front, `limit` at most. A byte behind them that is no digit is put back.
take_digits : (ℕ → Bool) → ℕ → List Read → Scanned Bytes
take_digits ok zero xs = got [] (source false xs)
take_digits ok (suc limit) [] = got [] (source false [])
take_digits ok (suc limit) (nothing ∷ xs) = take_digits ok (suc limit) xs
take_digits ok (suc limit) (fail e ∷ xs) = failed (broken e) (source false xs)
take_digits ok (suc limit) (byte c ∷ xs) =
    let more = front_digit c (take_digits ok limit xs) in
    if ok c then more else got [] (source true (byte c ∷ xs))

-- `notEOF`, which puts back the byte that it reads.
not_eof_from : List Read → Scanned (Unit {0})
not_eof_from [] = failed eof (source false [])
not_eof_from (nothing ∷ xs) = not_eof_from xs
not_eof_from (fail e ∷ xs) = failed (broken e) (source false xs)
not_eof_from (byte c ∷ xs) = got tt (source true (byte c ∷ xs))

not_eof : Scan (Unit {0})
not_eof s = not_eof_from s.unread

abbrev pub is_decimal : ℕ → Bool
is_decimal c = leb b'0' c && leb c b'9'

abbrev pub is_binary : ℕ → Bool
is_binary c = leb b'0' c && leb c b'1'

-- `scanNumber`: one digit or more.
at_least_one : Bytes → Scan Bytes
at_least_one [] s = failed (scan_failed expected_integer) s
at_least_one (c ∷ ds) s = got (c ∷ ds) s

scan_number : (ℕ → Bool) → ℕ → Scan Bytes
unfolding not_eof not_eof_from take_digits at_least_one
scan_number ok limit = do not_eof; ds ← λ s. take_digits ok limit s.unread; at_least_one ds

-- The number that the digits spell in a base.
abbrev pub number : ℕ → ℕ → Bytes → ℕ
number base n [] = n
number base n (c ∷ ds) = number base (n * base + (c - b'0')) ds

in_range : ℕ → ℕ → Scan ℕ
in_range bits n s = if ltb n (2 ^ bits) then got n s else failed (scan_failed out_of_range) s

-- The width where the format gives none.
abbrev pub huge_width : ℕ
huge_width = 2 ^ 30

-- A verb into an unsigned variable of `bits` bits. `SkipSpace` stands before every verb.
scan_unsigned : (ℕ → Bool) → ℕ → ℕ → ℕ → Scan ℕ
scan_unsigned ok base limit bits = do
  skip_space
  ds ← scan_number ok limit
  in_range bits (number base 0 ds)

-- `%d` into a `uint32`.
unfoldable pub scan_uint32 : Scan ℕ
unfolding scan_unsigned skip_space scan_number in_range
scan_uint32 = scan_unsigned is_decimal 10 huge_width 32

-- `%0wb` into a variable of `w` bits.
unfoldable pub scan_bits : ℕ → Scan ℕ
unfolding scan_unsigned skip_space scan_number in_range
scan_bits w = scan_unsigned is_binary 2 w w

-- The sign of `scanInt`, and whether it is a minus.
sign_from : List Read → Scanned Bool
sign_from [] = got false (source false [])
sign_from (nothing ∷ xs) = sign_from xs
sign_from (fail e ∷ xs) = failed (broken e) (source false xs)
sign_from (byte c ∷ xs) =
    if c == b'+'
    then got false (source false xs)
    else if c == b'-'
    then got true (source false xs)
    else got false (source true (byte c ∷ xs))

scan_sign : Scan Bool
unfolding sign_from
scan_sign s = sign_from s.unread

-- The value of an `int`, read as a count: a negative number counts no rounds of a loop.
as_count : Bool → ℕ → Scan ℕ
as_count minus n s =
    if minus
    then (if leb n (2 ^ 63) then got 0 s else failed (scan_failed out_of_range) s)
    else if ltb n (2 ^ 63)
    then got n s
    else failed (scan_failed out_of_range) s

scan_signed : Bool → Scan ℕ
scan_signed minus = do ds ← scan_number is_decimal huge_width; as_count minus (number 10 0 ds)

scan_int : Scan ℕ
scan_int = do skip_space; not_eof; minus ← scan_sign; scan_signed minus

-- `%d` into an `int`.
unfoldable pub scan_count : Scan ℕ
unfolding scan_int skip_space not_eof scan_sign scan_signed scan_number as_count
scan_count = scan_int

-- A blank in the format, which matches one or more blanks or the end of the input.
expect_space_from : List Read → Scanned (Unit {0})
unfolding more_space
expect_space_from [] = got tt (source false [])
expect_space_from (nothing ∷ xs) = expect_space_from xs
expect_space_from (fail e ∷ xs) = failed (broken e) (source false xs)
expect_space_from (byte c ∷ xs) =
    if c == 10
    then failed (scan_failed unexpected_newline) (source false xs)
    else if is_space c
    then more_space xs
    else failed (scan_failed expected_space) (source false xs)

unfoldable pub expect_space : Scan (Unit {0})
unfolding expect_space_from
expect_space s = expect_space_from s.unread

-- A literal byte in the format.
expect_from : ℕ → List Read → Scanned (Unit {0})
expect_from b [] = failed (scan_failed unexpected_eof) (source false [])
expect_from b (nothing ∷ xs) = expect_from b xs
expect_from b (fail e ∷ xs) = failed (broken e) (source false xs)
expect_from b (byte c ∷ xs) =
    if c == b
    then got tt (source false xs)
    else failed (scan_failed no_match) (source true (byte c ∷ xs))

unfoldable pub expect : ℕ → Scan (Unit {0})
unfolding expect_from
expect b s = expect_from b s.unread

-- What the reader holds after a call. A reader that is no `io.RuneScanner` cannot take a byte back:
-- the byte was put back into a wrapper that the call drops.
dropped : Source → List Read
dropped s = elim s.unread [ [] ↦ [] | x ∷ xs ↦ if s.peeked then xs else x ∷ xs ]

left_over : Bool → Source → List Read
unfolding dropped
left_over true s = s.unread
left_over false s = dropped s

abbrev report {ℓ} : {A : Type ℓ} → Bool → Scanned A → Option A × Option GoError × Reader
report q (got a s) = (some a, none, reader q (left_over q s))
report q (failed e s) = (none, some e, reader q (left_over q s))

-- A call of `Fscanf`: what its steps give, unless one fails, the error, and the reader.
unfoldable pub fscanf {ℓ} : {A : Type ℓ} → Scan A → Reader → Option A × Option GoError × Reader
unfolding left_over
fscanf m r = report r.rune_scanner (m (source false r.input))

unsigned_runs :
    fscanf scan_uint32 (reader true (feed (codes "12 3") []))
    ≡ (some 12, none, reader true (feed (codes " 3") []))
unfolding fscanf scan_uint32
unsigned_runs = refl

-- On a connection the byte behind the number is lost.
unsigned_loses :
    fscanf scan_uint32 (reader false (feed (codes "12 3") []))
    ≡ (some 12, none, reader false (feed (codes "3") []))
unfolding fscanf scan_uint32
unsigned_loses = refl

bits_run :
    fscanf (scan_bits 8) (reader false (feed (codes " 010110001") []))
    ≡ (some 0b1011000, none, reader false (feed (codes "1") []))
unfolding fscanf scan_bits
bits_run = refl

count_runs :
    fscanf scan_count (reader true (feed (codes " -7 ") []))
    ≡ (some 0, none, reader true (feed (codes " ") []))
unfolding fscanf scan_count
count_runs = refl

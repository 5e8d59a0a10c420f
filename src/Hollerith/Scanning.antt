-- ===== src/Hollerith/Scanning.antt =====
-- What `Scan` reads back, and where it leaves the reader.
use komandgo.Base.{
  ℕ, zero, suc, ◌+◌, ◌-◌, ◌*◌, ◌%◌, ◌^◌, ◌<◌, ◌≡◌, refl, Bool, List, [], ◌∷◌, ◌++◌, none,
  append_assoc, append-nil, arith, Bytes, length, All,
}
use komandgo.Fmt.{format_decimal}
use komandgo.Fmt.Decimal.{IsDigit, value-format, format-IsDigit}
use komandgo.Io.{Read, byte, Reader, reader, enough, feed, feed-append}
use komandgo.Utils.{read_byte}
use komandgo.Utils.Reading.{length-feed}
use komandgo.Utils.Numbers.{digit_of-digit, wrapped, wrapped-value}
use komandgo.Hollerith.{scan_length, scan_bytes, scan, rounds, sprint, text}

scan_length-digits :
    (fuel l : ℕ) (ds : Bytes) (q : Bool) (rest : List Read)
    → All IsDigit ds
    → length ds < fuel
    → scan_length fuel l (reader q (feed ds (byte b'H' ∷ rest)))
      ≡ (wrapped (2 ^ 64) l ds, none, reader q rest)
unfolding scan_length read_byte
scan_length-digits zero l ds q rest _ h = elim h [ ]
scan_length-digits (suc fuel) l [] q rest _ h = refl
scan_length-digits (suc fuel) l (c ∷ ds) q rest (hc, hds) h = ground (
  arith,
  digit_of-digit c hc,
  scan_length-digits fuel ((10 * l + (c - b'0')) % 2 ^ 64) ds q rest hds,
)

scan_bytes-feed :
    (s rv : Bytes) (q : Bool) (rest : List Read)
    → scan_bytes (length s) rv (reader q (feed s rest)) ≡ (rv ++ s, none, reader q rest)
unfolding scan_bytes read_byte
scan_bytes-feed [] rv q rest = rw append-nil
scan_bytes-feed (c ∷ s) rv q rest = rw (scan_bytes-feed s (rv ++ c ∷ []) q rest) (rw append_assoc)

-- The length that the printed digits of `n` give in a 64-bit `int`.
pub wrapped-format : (n : ℕ) → n < 2 ^ 64 → wrapped (2 ^ 64) 0 (format_decimal n) ≡ n
wrapped-format n h = omega (arith, wrapped-value (2 ^ 64) 0 (format_decimal n), value-format n)

scan_length-format :
    (n : ℕ) (q : Bool) (rest : List Read)
    → n < 2 ^ 63
    → (let r = reader q (feed (format_decimal n) (byte b'H' ∷ rest)) in
        scan_length (enough r) 0 r ≡ (n, none, reader q rest))
scan_length-format n q rest h = rw (
  scan_length-digits (enough (reader q (feed (format_decimal n) (byte b'H' ∷ rest)))) 0
      (format_decimal n) q rest (format-IsDigit n)
      (omega (arith, length-feed (format_decimal n) (byte b'H' ∷ rest))),
  wrapped-format n (omega arith),
)

rounds_small : (n : ℕ) → n < 2 ^ 63 → rounds n ≡ n
rounds_small n h = ground arith

scan-scan_length :
    (r r' : Reader) (l : ℕ)
    → scan_length (enough r) 0 r ≡ (l, none, r')
    → scan r ≡ scan_bytes (rounds l) [] r'
unfolding scan
scan-scan_length r r' l e = ground arith

-- `Scan` reads a string back from what `Sprint` writes for it, whatever bytes it has and whatever
-- follows it, takes nothing of what follows, and reports no error.
pub scan-sprint :
    (s : Bytes) (q : Bool) (rest : List Read)
    → length s < 2 ^ 63
    → scan (reader q (feed (sprint (text s)) rest)) ≡ (s, none, reader q rest)
unfolding sprint
scan-sprint s q rest h = rw (feed-append (format_decimal (length s)) (b'H' ∷ s) rest) (
    rw
      (
        scan-scan_length _ _ _ (scan_length-format (length s) q (feed s rest) h),
        rounds_small (length s) h,
      )
      (scan_bytes-feed s [] q rest))

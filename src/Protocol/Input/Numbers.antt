-- ===== src/Protocol/Input/Numbers.antt =====
-- What `readUInt32` and `readUInt16` read, and that their loops end.
use komandgo.Base.{
  ℕ, zero, suc, ◌+◌, ◌-◌, ◌*◌, ◌%◌, ◌^◌, ◌<◌, ◌≡◌, refl, Bool, List, [], ◌∷◌, ap, ◌∙◌, arith, Bytes,
  length, All, none, some, inl, inr, Option-cases, Bool-cases, ended_with,
}
use komandgo.Fmt.{format_decimal}
use komandgo.Fmt.Decimal.{IsDigit, value-format, format-IsDigit}
use komandgo.Io.{Read, byte, Reader, reader, enough, feed}
use komandgo.Utils.{read_byte}
use komandgo.Utils.Reading.{read_byte-length, length-feed}
use komandgo.Utils.Numbers.{wrapped, wrapped-value}
use komandgo.Protocol.Input.{number_loop, is_digit, read_uint32, read_uint16}

-- What ends a number: another byte, which is taken too, or the end of the input.
pub data Ends : List Read → List Read → Type 0 where
  by_byte : (c : ℕ) (rest : List Read) → ¬ IsDigit c → Ends (byte c ∷ rest) rest
  by_eof : Ends [] []

number_loop-Ends :
    (m fuel rv : ℕ) (q : Bool) {xs rest : List Read}
    → Ends xs rest
    → number_loop m (suc fuel) rv (reader q xs) ≡ some (rv, reader q rest)
unfolding number_loop read_byte
number_loop-Ends m fuel rv q (by_byte c rest h) = ground arith
number_loop-Ends m fuel rv q by_eof = refl

number_loop-digit :
    (m fuel rv c : ℕ) (q : Bool) (xs : List Read)
    → IsDigit c
    → number_loop m (suc fuel) rv (reader q (byte c ∷ xs))
      ≡ number_loop m fuel ((10 * rv + (c - b'0')) % m) (reader q xs)
unfolding number_loop read_byte
number_loop-digit m fuel rv c q xs h = ground arith

number_loop-digits :
    (m fuel rv : ℕ) (ds : Bytes) (q : Bool) {xs rest : List Read}
    → All IsDigit ds
    → Ends xs rest
    → length ds < fuel
    → number_loop m fuel rv (reader q (feed ds xs)) ≡ some (wrapped m rv ds, reader q rest)
number_loop-digits m zero rv ds q _ _ h = elim h [ ]
number_loop-digits m (suc fuel) rv [] q _ end h = number_loop-Ends m fuel rv q end
number_loop-digits m (suc fuel) rv (c ∷ ds) q {xs} {rest} (hc, hds) end h =
    number_loop-digit m fuel rv c q (feed ds xs) hc
    ∙ number_loop-digits m fuel ((10 * rv + (c - b'0')) % m) ds q hds end (omega arith)

-- `readUInt32` reads the printed digits of a number, as the number modulo 2^32, with the byte behind
-- them, or up to the end of the input.
pub read_uint32-format :
    (n : ℕ) (q : Bool) {xs rest : List Read}
    → Ends xs rest
    → read_uint32 (reader q (feed (format_decimal n) xs)) ≡ (n % 2 ^ 32, reader q rest)
unfolding read_uint32
read_uint32-format n q {xs} {rest} end =
    ap (ended_with (0, reader q (feed (format_decimal n) xs))) (
      number_loop-digits (2 ^ 32) (enough (reader q (feed (format_decimal n) xs))) 0
        (format_decimal n) q (format-IsDigit n) end
        (omega (arith, length-feed (format_decimal n) xs)))
    ∙ ap (λ v. (v, reader q rest))
        (wrapped-value (2 ^ 32) 0 (format_decimal n) ∙ ap (λ v. v % 2 ^ 32) (value-format n))

-- `readUInt16` reads the printed digits of a number, as the number modulo 2^16, with the byte behind
-- them, or up to the end of the input.
pub read_uint16-format :
    (n : ℕ) (q : Bool) {xs rest : List Read}
    → Ends xs rest
    → read_uint16 (reader q (feed (format_decimal n) xs)) ≡ (n % 2 ^ 16, reader q rest)
unfolding read_uint16
read_uint16-format n q {xs} {rest} end =
    ap (ended_with (0, reader q (feed (format_decimal n) xs))) (
      number_loop-digits (2 ^ 16) (enough (reader q (feed (format_decimal n) xs))) 0
        (format_decimal n) q (format-IsDigit n) end
        (omega (arith, length-feed (format_decimal n) xs)))
    ∙ ap (λ v. (v, reader q rest))
        (wrapped-value (2 ^ 16) 0 (format_decimal n) ∙ ap (λ v. v % 2 ^ 16) (value-format n))

read_byte-fine :
    (r : Reader) → (read_byte r).1 ≡ none → length (read_byte r).2.input < length r.input
read_byte-fine r fine = elim (read_byte-length r) [
  | inl failed ↦ absurd (failed fine)
  | inr less ↦ less
]

-- The loop ends within a round more than there are reads left, and more rounds change nothing.
number_loop-ends :
    (m fuel rv : ℕ) (r : Reader)
    → length r.input < fuel
    → (v : ℕ × Reader) × (number_loop m fuel rv r ≡ some v)
unfolding number_loop
number_loop-ends m zero rv r h = elim h [ ]
number_loop-ends m (suc fuel) rv r h =
    let (b, err, r') = read_byte r in
    elim (Option-cases (read_byte r).1) [
      | inr (e, failed) ↦ ((rv, r'), rw (failed, number_loop) refl)
      | inl fine ↦ elim (Bool-cases (is_digit b)) [
        | inr other ↦ ((rv, r'), rw (fine, number_loop) (rw other refl))
        | inl digit ↦
            let (v, e) =
              number_loop-ends m fuel ((10 * rv + (b - b'0')) % m) r'
                (omega (arith, read_byte-fine r fine)) in
            (v, rw (fine, number_loop) (rw digit e))
      ]
    ]

number_loop-fuel :
    (m f g rv : ℕ) (r : Reader)
    → length r.input < f
    → length r.input < g
    → number_loop m f rv r ≡ number_loop m g rv r
unfolding number_loop
number_loop-fuel m zero g rv r hf hg = elim hf [ ]
number_loop-fuel m (suc f) zero rv r hf hg = elim hg [ ]
number_loop-fuel m (suc f) (suc g) rv r hf hg = ground (
  arith,
  read_byte-length r,
  number_loop-fuel m f g ((10 * rv + ((read_byte r).0 - b'0')) % m) (read_byte r).2,
)

number_loop-ended_with :
    (m fuel : ℕ) (r : Reader)
    → length r.input < fuel
    → number_loop m fuel 0 r ≡ some (ended_with (0, r) (number_loop m (enough r) 0 r))
number_loop-ended_with m fuel r h =
    let (v, e) = number_loop-ends m (enough r) 0 r (omega arith) in
    number_loop-fuel m fuel (enough r) 0 r h (omega arith) ∙ rw e refl

-- On every finite input, with the end of the input behind it, the loops of `readUInt32` and
-- `readUInt16` come to an end by themselves: any number of rounds above the number of reads left is
-- enough, and what they come to is the result.
pub read_uint32-ends :
    (fuel : ℕ) (r : Reader)
    → length r.input < fuel
    → (number_loop (2 ^ 32) fuel 0 r ≡ some (read_uint32 r))
      × (number_loop (2 ^ 16) fuel 0 r ≡ some (read_uint16 r))
unfolding read_uint32 read_uint16
read_uint32-ends fuel r h =
    (number_loop-ended_with (2 ^ 32) fuel r h, number_loop-ended_with (2 ^ 16) fuel r h)

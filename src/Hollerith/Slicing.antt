-- ===== src/Hollerith/Slicing.antt =====
-- What `FromString` cuts out of a string, and where it panics.
use native.Mathlib.Nat.{add-zero, add-suc, suc-add}
use komandgo.Base.{
  ℕ, zero, suc, ◌+◌, ◌-◌, ◌*◌, ◌%◌, ◌^◌, ◌≤◌, ◌<◌, ◌≡◌, refl, ◌≢◌, [], ◌∷◌, ◌++◌, none, some,
  Option-cases, inl, inr, append_assoc, ap, ◌∙◌, arith, Bytes, length, drop, take-length, All,
  length-append,
}
use komandgo.Fmt.{format_decimal}
use komandgo.Fmt.Decimal.{IsDigit, format-IsDigit}
use komandgo.Utils.{digit_of}
use komandgo.Utils.Numbers.{
  digit_of-digit, digit_of-other, wrapped, get_elem?-drop, get_elem?-drop_nil, length-drop,
}
use komandgo.Hollerith.{find_length, slice, from_string, sprint, text}
use komandgo.Hollerith.Scanning.{wrapped-format}

find_length-digits :
    (fuel : ℕ) (s : Bytes) (ix l : ℕ) (ds rest : Bytes)
    → drop ix s ≡ ds ++ b'H' ∷ rest
    → All IsDigit ds
    → length ds < fuel
    → find_length fuel s ix l ≡ some (ix + length ds, wrapped (2 ^ 64) l ds)
unfolding find_length
find_length-digits zero s ix l ds rest h _ hf = elim hf [ ]
find_length-digits (suc fuel) s ix l [] rest h _ hf =
    ground (arith, get_elem?-drop s ix b'H' rest h)
find_length-digits (suc fuel) s ix l (c ∷ ds) rest h (hc, hds) hf =
    let (here, next) = get_elem?-drop s ix c (ds ++ b'H' ∷ rest) h in
    ground (
      arith,
      here,
      digit_of-digit c hc,
      find_length-digits fuel s (suc ix) ((10 * l + (c - b'0')) % 2 ^ 64) ds rest next hds,
    )

-- A byte that `FromString` skips in front of the length.
abbrev pub IsFiller : ℕ → Type 0
IsFiller c = (¬ IsDigit c) × (c ≢ b'H')

find_length-skip :
    (fuel : ℕ) (s : Bytes) (ix : ℕ) (junk ds rest : Bytes)
    → drop ix s ≡ junk ++ (ds ++ b'H' ∷ rest)
    → All IsFiller junk
    → All IsDigit ds
    → length junk + length ds < fuel
    → find_length fuel s ix 0 ≡ some (ix + length junk + length ds, wrapped (2 ^ 64) 0 ds)
unfolding find_length
find_length-skip zero s ix junk ds rest h _ _ hf = elim hf [ ]
find_length-skip (suc fuel) s ix [] ds rest h _ hd hf =
    ground (arith, find_length-digits (suc fuel) s ix 0 ds rest h hd)
find_length-skip (suc fuel) s ix (c ∷ junk) ds rest h ((hc, h'), hj) hd hf =
    let (here, next) = get_elem?-drop s ix c (junk ++ (ds ++ b'H' ∷ rest)) h in
    ground
      (arith, here, digit_of-other c hc, find_length-skip fuel s (suc ix) junk ds rest next hj hd)

drop-drop : (s : Bytes) (i : ℕ) (a b : Bytes) → drop i s ≡ a ++ b → drop (i + length a) s ≡ b
drop-drop s i [] b h = rw add-zero h
drop-drop s i (c ∷ a) b h =
    rw (add-suc, ← suc-add) (drop-drop s (suc i) a b (get_elem?-drop s i c (a ++ b) h).1)

slice-drop :
    (s : Bytes) (ix : ℕ) (t rest : Bytes)
    → drop ix s ≡ t ++ rest
    → ix ≤ length s
    → length t < 2 ^ 63
    → slice s ix (length t) ≡ some (t, ix + length t)
unfolding slice
slice-drop s ix t rest h le lt =
    ground (arith, length-drop s ix, ap length h, length-append t rest, take-length t rest)

from_string-find_length :
    (s : Bytes) (offset ix l : ℕ)
    → find_length (suc (length s)) s offset 0 ≡ some (ix, l)
    → from_string s offset ≡ slice s (suc ix) l
unfolding from_string
from_string-find_length s offset ix l e = ground arith

-- The text from `offset` on, with the string's length taken apart from its bytes.
module _ (s : Bytes) (offset : ℕ) (junk t rest : Bytes)
    (h : drop offset s ≡ junk ++ (format_decimal (length t) ++ b'H' ∷ (t ++ rest)))
    (hj : All IsFiller junk) (lt : length t < 2 ^ 63) where
  abbrev mark : ℕ
  mark = offset + length junk + length (format_decimal (length t))

  drop-mark : drop mark s ≡ b'H' ∷ (t ++ rest)
  drop-mark =
      drop-drop s (offset + length junk) (format_decimal (length t)) _ (drop-drop s offset junk _ h)

  mark_fits : suc mark + length t ≤ length s
  mark_fits = omega (arith, ap length drop-mark, length-drop s mark, length-append t rest)

  from_string-cut : from_string s offset ≡ some (t, suc mark + length t)
  from_string-cut =
      from_string-find_length s offset mark (length t) (
        rw (
          find_length-skip (suc (length s)) s offset junk (format_decimal (length t)) _ h hj
              (format-IsDigit (length t)) (omega (arith, mark_fits)),
          wrapped-format (length t) (omega arith),
        ))
      ∙ slice-drop s (suc mark) t rest (get_elem?-drop s mark b'H' (t ++ rest) drop-mark).1
          (omega (arith, mark_fits)) lt

-- `FromString` skips what is neither a digit nor an `H`, and gives back a string that `Sprint` wrote,
-- whatever bytes it has and whatever follows it, with the index behind it. It does not panic there.
pub from_string-sprint :
    (s : Bytes) (offset : ℕ) (junk t rest : Bytes)
    → drop offset s ≡ junk ++ (sprint (text t) ++ rest)
    → All IsFiller junk
    → length t < 2 ^ 63
    → from_string s offset ≡ some (t, offset + length junk + length (sprint (text t)))
unfolding sprint
from_string-sprint s offset junk t rest h hj lt =
    from_string-cut s offset junk t rest
      (h ∙ ap (◌++◌ junk) (append_assoc (format_decimal (length t)) (b'H' ∷ t) rest)) hj lt
    ∙ ap (λ n. some (t, n)) (omega (arith, length-append (format_decimal (length t)) (b'H' ∷ t)))

find_length-panics :
    (fuel : ℕ) (s : Bytes) (ix l : ℕ) (rest : Bytes)
    → drop ix s ≡ rest
    → All (λ c. c ≢ b'H') rest
    → find_length fuel s ix l ≡ none
unfolding find_length
find_length-panics zero s ix l rest h hr = refl
find_length-panics (suc fuel) s ix l [] h hr = ground (arith, get_elem?-drop_nil s ix h)
find_length-panics (suc fuel) s ix l (c ∷ rest) h (hc, hr) =
    let (here, next) = get_elem?-drop s ix c rest h in
    let loop : (m : ℕ) → find_length fuel s (suc ix) m ≡ none =
      λ m. find_length-panics fuel s (suc ix) m rest next hr in
    elim (Option-cases (digit_of c)) [
      | inl e ↦ ground (arith, here, loop l, e)
      | inr (p, e) ↦ ground (arith, here, loop ((l * 10 + p) % 2 ^ 64), e)
    ]

-- Where no `H` follows, `FromString` runs off the end of its source and panics.
pub from_string_panics_lem :
    (s : Bytes) (offset : ℕ) → All (λ c. c ≢ b'H') (drop offset s) → from_string s offset ≡ none
unfolding from_string
from_string_panics_lem s offset h =
    ground (arith, find_length-panics (suc (length s)) s offset 0 (drop offset s) refl h)

-- ===== src/Hollerith.antt =====
-- pkg/hollerith/hollerith.go: strings written as their length, an `H` and their bytes. The proofs
-- are in the modules below.
pub mod Scanning
pub mod Slicing
use komandgo.Base.{
  ℕ, zero, suc, ◌+◌, ◌*◌, ◌%◌, ◌^◌, ◌≡◌, refl, Bool, true, false, ◌&&◌, List, [], ◌∷◌, ◌++◌, Option,
  none, some, Bytes, codes, length, get_elem?, take, drop, ltb, leb, ◌==◌, if◌then◌else◌,
}
use komandgo.Fmt.{format_decimal}
use komandgo.Io.{
  GoError, eof, bad_length_character, Reader, reader, enough, feed, Writer, writer, write,
}
use komandgo.Utils.{read_byte, digit_of}

-- An argument of type `interface{}`: a string, or a number that is not negative.
pub data Operand : Type 0 where
  text : Bytes → Operand
  number : ℕ → Operand

-- `fmt.Sprint` of one argument.
unfoldable pub show : Operand → Bytes
unfolding format_decimal
show (text s) = s
show (number n) = format_decimal n

-- `fmt.Sprintf("%dH%s", len(i), i)`.
unfoldable pub counted : Bytes → Bytes
unfolding format_decimal
counted i = format_decimal (length i) ++ b'H' ∷ i

-- `Sprint`.
unfoldable pub sprint : Operand → Bytes
unfolding show counted
sprint s = counted (show s)

-- `Fprint`: one write, whose result it returns.
unfoldable pub fprint : Writer → Operand → ℕ × Option GoError × Writer
unfolding show counted write
fprint sink s = write sink (counted (show s))

-- A format with its arguments put in: literal text and what the verbs stand for.
abbrev pub Format : Type 0
Format = List Operand

abbrev pub format : Format → Bytes
format [] = []
format (p ∷ ps) = show p ++ format ps

-- `Fprintf`.
unfoldable pub fprintf : Writer → Format → ℕ × Option GoError × Writer
unfolding fprint
fprintf sink f = fprint sink (text (format f))

-- The loop of `Scan` that reads the length, an `int` of 64 bits.
scan_length : ℕ → ℕ → Reader → ℕ × Option GoError × Reader
scan_length zero l r = (l, none, r)
scan_length (suc fuel) l r =
    let (b, err, r') = read_byte r in
    let blank = scan_length fuel l r' in
    elim err [
      | some e ↦ (0, some e, r')
      | none ↦ if b == b' ' then blank else if b == b'H' then (l, none, r') else elim (digit_of b) [
        | some p ↦ scan_length fuel ((l * 10 + p) % 2 ^ 64) r'
        | none ↦ (0, some bad_length_character, r')
      ]
    ]

-- The rounds of `for c := 0; c < l; c++`: none where the sign bit of `l` is set.
abbrev pub rounds : ℕ → ℕ
rounds l = if ltb l (2 ^ 63) then l else 0

-- The loop of `Scan` that reads the bytes.
scan_bytes : ℕ → Bytes → Reader → Bytes × Option GoError × Reader
scan_bytes zero rv r = (rv, none, r)
scan_bytes (suc n) rv r =
    let (b, err, r') = read_byte r in
    let more = scan_bytes n (rv ++ b ∷ []) r' in
    elim err [ some e ↦ ([], some e, r') | none ↦ more ]

-- `Scan`.
unfoldable pub scan : Reader → Bytes × Option GoError × Reader
unfolding scan_length scan_bytes read_byte digit_of
scan r =
    let (l, err, r') = scan_length (enough r) 0 r in
    elim err [ some e ↦ ([], some e, r') | none ↦ scan_bytes (rounds l) [] r' ]

-- The loop of `FromString`: where the `H` is, and the length before it. `none` is a panic, at an
-- index out of range.
find_length : ℕ → Bytes → ℕ → ℕ → Option (ℕ × ℕ)
find_length zero s ix len = none
find_length (suc fuel) s ix len = elim (get_elem? s ix) [
  | none ↦ none
  | some c ↦
      let skip = find_length fuel s (suc ix) len in
      if c == b'H' then some (ix, len) else elim (digit_of c) [
        | some p ↦ find_length fuel s (suc ix) ((len * 10 + p) % 2 ^ 64)
        | none ↦ skip
      ]
]

-- `source[ix : ix+len]` and `ix + len`; bounds out of range panic, and so does a negative length.
slice : Bytes → ℕ → ℕ → Option (Bytes × ℕ)
slice s ix len =
    if ltb len (2 ^ 63) && leb (ix + len) (length s)
    then some (take len (drop ix s), ix + len)
    else none

-- `FromString`: the string behind `offset`, and the index at which it ends.
unfoldable pub from_string : Bytes → ℕ → Option (Bytes × ℕ)
unfolding find_length slice digit_of
from_string source offset = elim (find_length (suc (length source)) source offset 0) [
  | none ↦ none
  | some (ix, len) ↦ slice source (suc ix) len
]

sprint_runs : sprint (text (codes "1H1")) ≡ codes "3H1H1"
unfolding sprint
sprint_runs = refl

fprintf_runs :
    fprintf (writer [] []) (number 1 ∷ text (codes "23") ∷ [])
    ≡ (5, none, writer [] (codes "3H123"))
unfolding fprintf
fprintf_runs = refl

scan_runs :
    scan (reader true (feed (codes " 3H1H1 ") []))
    ≡ (codes "1H1", none, reader true (feed (codes " ") []))
unfolding scan
scan_runs = refl

scan_rejects :
    scan (reader true (feed (codes "13%Hhalvah") []))
    ≡ ([], some bad_length_character, reader true (feed (codes "Hhalvah") []))
unfolding scan
scan_rejects = refl

from_string_runs : from_string (codes "15HStoppa in text!") 1 ≡ some (codes "Stopp", 8)
unfolding from_string
from_string_runs = refl

from_string_panics : from_string (codes "5Habc") 0 ≡ none
unfolding from_string
from_string_panics = refl

-- ===== src/Types/Arrays.antt =====
-- pkg/types: arrays of numbers, written by `TextNoArray` and `UInt32Array` (marshal.go) and read
-- back by `ReadUInt32Array` (unmarshal.go).
pub mod RoundTrip
use komandgo.Base.{
  ℕ, zero, suc, ◌≡◌, refl, Bool, true, false, List, [], ◌∷◌, ◌++◌, Option, none, some, Bytes, codes,
  length,
}
use komandgo.Fmt.{format_decimal}
use komandgo.Fmt.Scan.{
  Scan, fscanf, scan_count, scan_uint32, expect_space, expect, ◌>>=◌, ◌>>◌, give,
}
use komandgo.Io.{GoError, Reader, reader, feed, scan_failed, unexpected_eof}

-- The loops of `TextNoArray` and `UInt32Array`: a number and a blank for each entry.
unfoldable pub entries : List ℕ → Bytes
unfolding format_decimal
entries [] = []
entries (v ∷ ts) = format_decimal v ++ b' ' ∷ entries ts

-- `TextNoArray`
unfoldable pub text_no_array : List ℕ → Bytes
unfolding entries format_decimal
text_no_array ts = format_decimal (length ts) ++ (codes " { " ++ (entries ts ++ codes "}"))

-- `UInt32Array`
unfoldable pub uint32_array : List ℕ → Bytes
unfolding entries format_decimal
uint32_array ar = format_decimal (length ar) ++ (codes " { " ++ (entries ar ++ codes "}"))

-- The formats of `ReadUInt32Array`: "%d", " { ", "%d " and "}".
abbrev pub length_format : Scan ℕ
length_format = scan_count

abbrev pub open_format : Scan (Unit {0})
open_format = do expect_space; expect b'{'; expect_space

abbrev pub entry_format : Scan ℕ
entry_format = do next ← scan_uint32; expect_space; give next

abbrev pub close_format : Scan (Unit {0})
close_format = expect b'}'

-- The loop of `ReadUInt32Array`, and the end that it goes on to.
read_entries : ℕ → List ℕ → Reader → List ℕ × Option GoError × Reader
read_entries zero rv r = let (_, err, r') = fscanf close_format r in (rv, err, r')
read_entries (suc n) rv r =
    let (next, err, r') = fscanf entry_format r in
    elim next [ none ↦ (rv, err, r') | some v ↦ read_entries n (rv ++ v ∷ []) r' ]

-- `ReadUInt32Array`. An error of the format " { " is not looked at.
unfoldable pub read_uint32_array : Reader → List ℕ × Option GoError × Reader
unfolding read_entries
read_uint32_array r =
    let (len, err, r1) = fscanf length_format r in
    let (_, _, r2) = fscanf open_format r1 in
    elim len [ none ↦ ([], err, r1) | some n ↦ read_entries n [] r2 ]

array_runs : text_no_array (1 ∷ 2 ∷ 3 ∷ []) ≡ codes "3 { 1 2 3 }"
unfolding text_no_array
array_runs = refl

read_runs :
    read_uint32_array (reader true (feed (codes "2 { 4711 65 }") []))
    ≡ (4711 ∷ 65 ∷ [], none, reader true [])
unfolding read_uint32_array fscanf scan_count scan_uint32 expect_space expect
read_runs = refl

-- On a connection every call loses the byte that it puts back: of the two later numbers the first
-- digit is gone, and the closing brace is.
loses_digits :
    read_uint32_array (reader false (feed (codes "3 { 10 20 30 }") []))
    ≡ (10 ∷ 0 ∷ 0 ∷ [], some (scan_failed unexpected_eof), reader false [])
unfolding read_uint32_array fscanf scan_count scan_uint32 expect_space expect
loses_digits = refl

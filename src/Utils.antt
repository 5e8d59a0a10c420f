-- ===== src/Utils.antt =====
-- pkg/utils/utils.go: reading single bytes, numbers inside a string, and delimited lists. The proofs
-- are in the modules below; `ParseConfType` stands with the conference types.
pub mod Reading
pub mod Numbers
use komandgo.Base.{
  ℕ, zero, suc, ◌+◌, ◌*◌, ◌%◌, ◌^◌, ◌≡◌, refl, Bool, true, false, ◌&&◌, ◌||◌, not, List, [], ◌∷◌,
  ◌++◌, Option, none, some, Bytes, codes, length, get_elem?, ltb, ◌==◌, if◌then◌else◌, ended_with,
}
use komandgo.Io.{
  GoError, eof, broken, unexpected_start, Read, byte, nothing, fail, Reader, reader, enough, feed,
}

read_byte_from : Bool → List Read → ℕ × Option GoError × Reader
read_byte_from q [] = (0, some eof, reader q [])
read_byte_from q (nothing ∷ xs) = read_byte_from q xs
read_byte_from q (fail e ∷ xs) = (0, some (broken e), reader q xs)
read_byte_from q (byte b ∷ xs) = (b, none, reader q xs)

-- `ReadByte`: it reads until a read gives a byte or fails.
unfoldable pub read_byte : Reader → ℕ × Option GoError × Reader
unfolding read_byte_from
read_byte r = read_byte_from r.rune_scanner r.input

-- `strings.IndexByte`, with `none` for -1.
unfoldable pub index_byte : Bytes → ℕ → Option ℕ
index_byte [] c = none
index_byte (d ∷ s) c =
    if d == c then some 0 else elim (index_byte s c) [ none ↦ none | some i ↦ some (suc i) ]

-- The value of a digit, as `strings.IndexByte("0123456789", c)` finds it.
unfoldable pub digit_of : ℕ → Option ℕ
unfolding index_byte
digit_of c = index_byte (codes "0123456789") c

-- The loop of `ReadUInt32FromString`: every round but the last moves on by a byte.
scan_string : ℕ → Bytes → ℕ → Bool → ℕ → ℕ × ℕ
scan_string zero s rv started start = (rv, start)
scan_string (suc fuel) s rv started start = elim (get_elem? s start) [
  | none ↦ (rv, start)
  | some c ↦ elim (digit_of c) [
    | some p ↦ scan_string fuel s ((10 * rv + p) % 2 ^ 32) true (suc start)
    | none ↦ if started then (rv, start) else scan_string fuel s rv false (suc start)
  ]
]

-- `ReadUInt32FromString`: the number and the index behind it.
unfoldable pub read_uint32_from_string : Bytes → ℕ → ℕ × ℕ
unfolding scan_string digit_of
read_uint32_from_string s start = scan_string (suc (length s)) s 0 false start

-- The loop of `ReadDelimitedList`; `none` where the rounds run out.
unfoldable pub list_loop : ℕ → ℕ → Bytes → Reader → Option (Bytes × Option GoError × Reader)
list_loop zero end rv r = none
list_loop (suc fuel) end rv r =
    let (b, err, r') = read_byte r in
    let more = list_loop fuel end (rv ++ b ∷ []) r' in
    elim err [
      | some e ↦ some (rv, some e, r')
      | none ↦ if b == end then some (rv ++ b ∷ [], none, r') else more
    ]

-- `ReadDelimitedList`: what it read, with the delimiters; a start of 0 is not matched.
unfoldable pub read_delimited_list : ℕ → ℕ → Reader → Bytes × Option GoError × Reader
read_delimited_list start end r =
    let (b, err, r') = read_byte r in
    let wrong : Bytes × Option GoError × Reader = ([], some (unexpected_start b), r') in
    let body = ended_with ([], none, r') (list_loop (enough r') end (b ∷ []) r') in
    elim err [
      | some e ↦ wrong
      | none ↦ if not (start == 0) && not (b == start) then wrong else body
    ]

string_runs : read_uint32_from_string (codes "123 321") 3 ≡ (321, 7)
unfolding read_uint32_from_string
string_runs = refl

list_runs :
    read_delimited_list b'{' b'}' (reader false (feed (codes "{ 1 } 2") []))
    ≡ (codes "{ 1 }", none, reader false (feed (codes " 2") []))
unfolding read_delimited_list list_loop read_byte
list_runs = refl

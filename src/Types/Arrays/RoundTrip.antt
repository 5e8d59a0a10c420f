-- ===== src/Types/Arrays/RoundTrip.antt =====
-- Arrays that are written and read back.
use komandgo.Base.{
  ℕ, ◌^◌, ◌<◌, ◌≡◌, refl, true, false, List, [], ◌∷◌, ◌++◌, none, some, append_assoc, append-nil,
  ap, ◌∙◌, arith, Bytes, codes, length, All,
}
use komandgo.Fmt.{format_decimal}
use komandgo.Fmt.Decimal.{format-head}
use komandgo.Fmt.Scan.{
  source, fscanf, scan_uint32, expect_space, expect, ◌>>◌, give, >>=-got, is_space, got,
}
use komandgo.Fmt.Scan.Fields.{
  scan_count-format, scan_uint32-format, expect_space_lem, expect_lem, fscanf-got,
}
use komandgo.Io.{Read, byte, reader, feed, feed-append}
use komandgo.Types.Arrays.{
  entries, text_no_array, uint32_array, read_entries, read_uint32_array, length_format, open_format,
  entry_format, close_format,
}

-- A byte at which a run of blanks stops.
abbrev Solid : ℕ → Type 0
Solid c = is_space c ≡ false

open_format_lem :
    (c : ℕ) (rest : List Read)
    → Solid c
    → open_format (source false (feed (codes " { ") (byte c ∷ rest)))
      ≡ got tt (source true (byte c ∷ rest))
open_format_lem c rest h =
    let xs = feed (codes "{ ") (byte c ∷ rest) in
    >>=-got expect_space (λ _. expect b'{' >> expect_space) (source false (byte b' ' ∷ xs))
      (expect_space_lem false b'{' (feed (codes " ") (byte c ∷ rest)) refl)
    ∙ >>=-got (expect b'{') (λ _. expect_space) (source true xs)
        (expect_lem true b'{' (feed (codes " ") (byte c ∷ rest)))
    ∙ expect_space_lem false c rest h

entry_format_lem :
    (v c : ℕ) (rest : List Read)
    → v < 2 ^ 32
    → Solid c
    → entry_format (source false (feed (format_decimal v) (byte b' ' ∷ byte c ∷ rest)))
      ≡ got v (source true (byte c ∷ rest))
entry_format_lem v c rest h hc =
    >>=-got scan_uint32 (λ next. expect_space >> give next)
      (source false (feed (format_decimal v) (byte b' ' ∷ byte c ∷ rest)))
      (scan_uint32-format false v b' ' (byte c ∷ rest) h (λ d. omega arith))
    ∙ >>=-got expect_space (λ _. give v) (source true (byte b' ' ∷ byte c ∷ rest))
        (expect_space_lem true c rest hc)

-- What follows an entry begins with a byte that is no blank: a digit, or the closing brace.
entries_head :
    (xs : List ℕ) (rest : List Read)
    → (c : ℕ) × (ys : List Read) × (feed (entries xs ++ codes "}") rest ≡ byte c ∷ ys) × Solid c
unfolding entries
entries_head [] rest = (b'}', rest, refl, refl)
entries_head (v ∷ xs) rest =
    let (c, ds, e, hc) = format-head v in
    (
      c,
      feed ((ds ++ b' ' ∷ entries xs) ++ codes "}") rest,
      ap (λ s. feed ((s ++ b' ' ∷ entries xs) ++ codes "}") rest) e,
      ground arith,
    )

fscanf-entry :
    (v : ℕ) (xs : List ℕ) (rest : List Read)
    → v < 2 ^ 32
    → fscanf entry_format (reader true (feed (entries (v ∷ xs) ++ codes "}") rest))
      ≡ (some v, none, reader true (feed (entries xs ++ codes "}") rest))
unfolding entries
fscanf-entry v xs rest h =
    let (c, ys, e, hc) = entries_head xs rest in
    rw
      (
        append_assoc (format_decimal v) (b' ' ∷ entries xs) (codes "}"),
        feed-append (format_decimal v) (b' ' ∷ (entries xs ++ codes "}")) rest,
        e,
      )
      (fscanf-got entry_format (feed (format_decimal v) (byte b' ' ∷ byte c ∷ ys))
        (entry_format_lem v c ys h hc))

fscanf-close :
    (rest : List Read)
    → fscanf close_format (reader true (byte b'}' ∷ rest)) ≡ (some tt, none, reader true rest)
fscanf-close rest = fscanf-got close_format (byte b'}' ∷ rest) (expect_lem false b'}' rest)

read_entries-entries :
    (xs done : List ℕ) (rest : List Read)
    → All (λ v. v < 2 ^ 32) xs
    → read_entries (length xs) done (reader true (feed (entries xs ++ codes "}") rest))
      ≡ (done ++ xs, none, reader true rest)
unfolding read_entries entries
read_entries-entries [] done rest _ = rw (fscanf-close rest, append-nil)
read_entries-entries (v ∷ xs) done rest (hv, hxs) =
    let e = fscanf-entry v xs rest hv in
    rw (e, read_entries)
      (rw e (rw (read_entries-entries xs (done ++ v ∷ []) rest hxs) (rw append_assoc)))

-- What stands behind the length of a written array.
abbrev tail_of : List ℕ → Bytes
tail_of xs = entries xs ++ codes "}"

fscanf-length :
    (n : ℕ) (s : Bytes) (rest : List Read)
    → n < 2 ^ 63
    → fscanf length_format (reader true (feed (format_decimal n ++ b' ' ∷ s) rest))
      ≡ (some n, none, reader true (feed (b' ' ∷ s) rest))
fscanf-length n s rest h = rw (feed-append (format_decimal n) (b' ' ∷ s) rest) (
    fscanf-got length_format (feed (format_decimal n) (feed (b' ' ∷ s) rest))
      (scan_count-format false n b' ' (feed s rest) h (λ d. omega arith)))

fscanf-open :
    (xs : List ℕ) (rest : List Read)
    → fscanf open_format (reader true (feed (codes " { " ++ tail_of xs) rest))
      ≡ (some tt, none, reader true (feed (tail_of xs) rest))
fscanf-open xs rest =
    let (c, ys, e, hc) = entries_head xs rest in
    rw e (fscanf-got open_format (feed (codes " { ") (byte c ∷ ys)) (open_format_lem c ys hc))

-- `ReadUInt32Array` reads every array of `uint32` back from what `UInt32Array` writes, reports no
-- error and takes nothing of what follows, if the reader can take a byte back.
pub read_uint32_array-uint32_array :
    (xs : List ℕ) (rest : List Read)
    → All (λ v. v < 2 ^ 32) xs
    → length xs < 2 ^ 63
    → read_uint32_array (reader true (feed (uint32_array xs) rest)) ≡ (xs, none, reader true rest)
unfolding read_uint32_array uint32_array
read_uint32_array-uint32_array xs rest h hl =
    let e1 = fscanf-length (length xs) (codes "{ " ++ tail_of xs) rest hl in
    let e2 = fscanf-open xs rest in
    rw (e1, read_uint32_array) (rw (e1, e2) (read_entries-entries xs [] rest h))

-- `TextNoArray` writes as `UInt32Array` does.
pub text_no_array-uint32_array : (ts : List ℕ) → text_no_array ts ≡ uint32_array ts
unfolding text_no_array uint32_array
text_no_array-uint32_array ts = refl

-- ===== src/Protocol/Input/Failures.antt =====
-- What `readError` makes of the rest of an error response, on readers of both kinds.
use komandgo.Base.{
  ℕ, ◌^◌, ◌<◌, ◌≡◌, ◌≢◌, Bool, true, false, List, [], ◌∷◌, none, ◌∙◌, arith, Bytes, All,
}
use komandgo.Fmt.{format_decimal}
use komandgo.Fmt.Decimal.{format-head}
use komandgo.Fmt.Scan.{source, scan_uint32, expect_space, ◌>>=◌, ◌>>◌, give, >>=-got, got}
use komandgo.Fmt.Scan.Fields.{scan_uint32-format, expect_space_lem, fscanf-got, fscanf-got_lossy}
use komandgo.Io.{Read, byte, reader, feed}
use komandgo.Protocol.Input.{read_error, error_format}
use komandgo.Protocol.Input.Lines.{skip_to_newline-feed}

-- Two numbers with a blank between them, and what follows.
abbrev pub pair : ℕ → ℕ → List Read → List Read
pair a b xs = feed (format_decimal a) (byte b' ' ∷ feed (format_decimal b) xs)

expect_space-format :
    (p : Bool) (n : ℕ) (xs : List Read)
    → expect_space (source p (byte b' ' ∷ feed (format_decimal n) xs))
      ≡ got tt (source true (feed (format_decimal n) xs))
expect_space-format p n xs =
    let (c, ds, e, hc) = format-head n in rw e (expect_space_lem p c (feed ds xs) (ground arith))

error_format-pair :
    (a b : ℕ) (rest : List Read)
    → a < 2 ^ 32
    → b < 2 ^ 32
    → error_format (source false (pair a b (byte 10 ∷ rest)))
      ≡ got (a, b) (source true (byte 10 ∷ rest))
error_format-pair a b rest ha hb =
    let xs = feed (format_decimal b) (byte 10 ∷ rest) in
    >>=-got scan_uint32 (λ m. expect_space >> (scan_uint32 >>= λ n. give (m, n)))
      (source false (pair a b (byte 10 ∷ rest)))
      (scan_uint32-format false a b' ' xs ha (λ d. omega arith))
    ∙ >>=-got expect_space (λ _. scan_uint32 >>= λ n. give (a, n)) (source true (byte b' ' ∷ xs))
        (expect_space-format true b (byte 10 ∷ rest))
    ∙ >>=-got scan_uint32 (λ n. give (a, n)) (source true xs)
        (scan_uint32-format true b 10 rest hb (λ d. omega arith))

-- The error code and the error status follow the request number, which is taken before. `readError`
-- gives out the status as the code, 0 as the status, and no error; the line is taken whole.
pub read_error-pair :
    (code status : ℕ) (rest : List Read)
    → code < 2 ^ 32
    → status < 2 ^ 32
    → read_error (reader true (pair code status (byte 10 ∷ rest)))
      ≡ (status, 0, none, reader true rest)
unfolding read_error
read_error-pair code status rest hc hs =
    let e =
      fscanf-got error_format (pair code status (byte 10 ∷ rest))
        (error_format-pair code status rest hc hs) in
    rw (e, read_error) (rw e (rw (skip_to_newline-feed [] true rest tt)))

-- On a connection, which cannot take a byte back, `readError` takes the whole line that follows the
-- error too; again it gives out the status as the code.
pub read_error_takes_next_line :
    (code status : ℕ) (line : Bytes) (rest : List Read)
    → code < 2 ^ 32
    → status < 2 ^ 32
    → All (λ c. c ≢ 10) line
    → read_error (reader false (pair code status (byte 10 ∷ feed line (byte 10 ∷ rest))))
      ≡ (status, 0, none, reader false rest)
unfolding read_error
read_error_takes_next_line code status line rest hc hs hl =
    let next = feed line (byte 10 ∷ rest) in
    let e =
      fscanf-got_lossy error_format (pair code status (byte 10 ∷ next))
        (error_format-pair code status next hc hs) in
    rw (e, read_error) (rw e (rw (skip_to_newline-feed line false rest hl)))

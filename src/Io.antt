-- ===== src/Io.antt =====
-- An `io.Reader` as the outcomes of its successive reads into a buffer of one byte, and the errors
-- that the program meets.
use Prim.Native.Nat.{min}
use komandgo.Base.{
  ℕ, zero, suc, ◌≡◌, refl, Bool, List, [], ◌∷◌, ◌++◌, Option, none, some, Bytes, length, take, drop,
  ap,
}

-- Why a call of `fmt.Fscanf` stops.
pub data ScanError : Type 0 where
  unexpected_newline expected_integer out_of_range no_match expected_space unexpected_eof :
      ScanError

-- The values of type `error`.
pub data GoError : Type 0 where
  eof : GoError
  broken : ℕ → GoError
  scan_failed : ScanError → GoError
  unexpected_start : ℕ → GoError
  bad_length_character : GoError
  unknown_request : ℕ → GoError
  not_a_number : Bytes → GoError
  message : Bytes → GoError

-- One call of `r.Read(buf)`: it gives a byte, gives nothing, or fails.
pub data Read : Type 0 where
  byte : ℕ → Read
  nothing : Read
  fail : ℕ → Read

-- Behind the last of the listed outcomes every read fails with `io.EOF`. `rune_scanner` says
-- whether the reader is an `io.RuneScanner`, as a `bytes.Buffer` is and a `net.Conn` is not.
pub record Reader : Type 0 where
  pub rune_scanner : Bool
  pub input : List Read

abbrev pub reader : Bool → List Read → Reader
reader q xs = record { rune_scanner = q; input = xs }

-- The bytes `s`, one to a read, and then `rest`.
abbrev pub feed : Bytes → List Read → List Read
feed [] rest = rest
feed (c ∷ s) rest = byte c ∷ feed s rest

pub feed-append : (s t : Bytes) (rest : List Read) → feed (s ++ t) rest ≡ feed s (feed t rest)
feed-append [] t rest = refl
feed-append (c ∷ s) t rest = ap (◌∷◌ (byte c)) (feed-append s t rest)

-- Every round of a reading loop takes a read or meets an error, so this many rounds are enough.
abbrev pub enough : Reader → ℕ
enough r = suc (length r.input)

-- One call of `Write`: it takes so many of the bytes, or all of them, or takes some and fails.
pub data Wrote : Type 0 where
  takes : ℕ → Wrote
  takes_all : Wrote
  breaks : ℕ → ℕ → Wrote

-- An `io.Writer` as the outcomes of its successive calls, and what it has taken so far. Every call
-- behind the last of the listed outcomes has the outcome `behind`.
pub record Writer : Type 0 where
  pub outcomes : List Wrote
  pub behind : Wrote
  pub wire : Bytes

-- A writer that takes all behind the listed outcomes.
abbrev pub writer : List Wrote → Bytes → Writer
writer ws out = record { outcomes = ws; behind = takes_all; wire = out }

abbrev pub outcome_at : List Wrote → Wrote → ℕ → Wrote
outcome_at [] d i = d
outcome_at (e ∷ ws) d zero = e
outcome_at (e ∷ ws) d (suc i) = outcome_at ws d i

-- The outcome of call `i` from here on.
abbrev pub outcome : Writer → ℕ → Wrote
outcome w i = outcome_at w.outcomes w.behind i

abbrev pub taken_by : Wrote → Bytes → ℕ
taken_by (takes n) b = min n (length b)
taken_by takes_all b = length b
taken_by (breaks n e) b = min n (length b)

abbrev pub error_of : Wrote → Option GoError
error_of (takes n) = none
error_of takes_all = none
error_of (breaks n e) = some (broken e)

-- The writer behind a call with the bytes `b`.
abbrev pub written : Writer → Bytes → Writer
written w b = record w {
  outcomes = drop 1 w.outcomes;
  wire = w.wire ++ take (taken_by (outcome w 0) b) b;
}

-- `w.Write(b)`: the number of bytes taken, and the error.
unfoldable pub write : Writer → Bytes → ℕ × Option GoError × Writer
write w b = let d = outcome w 0 in (taken_by d b, error_of d, written w b)

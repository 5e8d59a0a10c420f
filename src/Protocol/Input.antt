-- ===== src/Protocol/Input.antt =====
-- pkg/protocol/client.go: reading lines, lists, numbers, times and errors from the socket.
pub mod Numbers
pub mod Lines
pub mod Failures
pub mod Times
use komandgo.Base.{
  ℕ, zero, suc, ◌+◌, ◌-◌, ◌*◌, ◌%◌, ◌^◌, ◌≡◌, refl, Bool, true, false, ◌&&◌, not, List, [], ◌∷◌,
  ◌++◌, Option, none, some, Bytes, codes, leb, ◌==◌, if◌then◌else◌, ended_with,
}
use komandgo.Fmt.Scan.{Scan, fscanf, scan_uint32, expect_space, ◌>>=◌, ◌>>◌, give}
use komandgo.Io.{GoError, unexpected_start, message, Reader, reader, enough, feed}
use komandgo.Protocol.Errors.{protocol_error}
use komandgo.Types.Time.{Time, date}
use komandgo.Utils.{read_byte}

-- The loop of `skipToNewline`, behind a byte `c`; `none` where the rounds run out.
pub skip_loop : ℕ → ℕ → Reader → Option Reader
skip_loop zero c r = none
skip_loop (suc fuel) c r =
    let (b, err, r') = read_byte r in
    let more = skip_loop fuel b r' in
    if c == 10 then some r else elim err [ some e ↦ some r' | none ↦ more ]

-- `skipToNewline`. An error of the first read is not looked at, and its byte is 0. The loop makes a
-- round more than there are reads, since it looks at a byte before it reads on.
unfoldable pub skip_to_newline : Reader → Reader
unfolding skip_loop
skip_to_newline r =
    let (c, err, r') = read_byte r in ended_with r (skip_loop (suc (enough r')) c r')

-- The loop of `readDelimitedList`; `none` where the rounds run out.
pub list_loop : ℕ → ℕ → Bytes → Reader → Option (Bytes × Option GoError × Reader)
list_loop zero end rv r = none
list_loop (suc fuel) end rv r =
    let (b, err, r') = read_byte r in
    let more = list_loop fuel end (rv ++ b ∷ []) r' in
    elim err [
      | some e ↦ some (rv, some e, r')
      | none ↦ if b == end then some (rv ++ b ∷ [], none, r') else more
    ]

-- `readDelimitedList`, a copy of `ReadDelimitedList` of pkg/utils.
unfoldable pub read_delimited_list : ℕ → ℕ → Reader → Bytes × Option GoError × Reader
unfolding list_loop
read_delimited_list start end r =
    let (b, err, r') = read_byte r in
    let wrong : Bytes × Option GoError × Reader = ([], some (unexpected_start b), r') in
    let body = ended_with ([], none, r') (list_loop (enough r') end (b ∷ []) r') in
    elim err [
      | some e ↦ wrong
      | none ↦ if not (start == 0) && not (b == start) then wrong else body
    ]

-- `(b >= '0') && (b <= '9')`
abbrev pub is_digit : ℕ → Bool
is_digit b = leb b'0' b && leb b b'9'

-- The loop of `readUInt32` and `readUInt16`, in words of modulus `m`; `none` where the rounds run out.
unfoldable pub number_loop : ℕ → ℕ → ℕ → Reader → Option (ℕ × Reader)
number_loop m zero rv r = none
number_loop m (suc fuel) rv r =
    let (b, err, r') = read_byte r in
    let more = number_loop m fuel ((10 * rv + (b - b'0')) % m) r' in
    elim err [ some e ↦ some (rv, r') | none ↦ if is_digit b then more else some (rv, r') ]

-- `readUInt32`
unfoldable pub read_uint32 : Reader → ℕ × Reader
unfolding number_loop
read_uint32 r = ended_with (0, r) (number_loop (2 ^ 32) (enough r) 0 r)

-- `readUInt16`
unfoldable pub read_uint16 : Reader → ℕ × Reader
unfolding number_loop
read_uint16 r = ended_with (0, r) (number_loop (2 ^ 16) (enough r) 0 r)

-- `readTime`: three more numbers are read and dropped.
unfoldable pub read_time : Reader → Time × Reader
read_time r =
    let (sec, r1) = read_uint32 r in
    let (min, r2) = read_uint32 r1 in
    let (hour, r3) = read_uint32 r2 in
    let (mday, r4) = read_uint32 r3 in
    let (mon, r5) = read_uint32 r4 in
    let (year, r6) = read_uint32 r5 in
    let (_, r7) = read_uint32 r6 in
    let (_, r8) = read_uint32 r7 in
    let (_, r9) = read_uint32 r8 in (date (1900 + year) mon mday hour min sec, r9)

-- The format "%d %d", and the two numbers that it fills in.
abbrev pub error_format : Scan (ℕ × ℕ)
error_format = do
  req_id ← scan_uint32
  expect_space
  error_code ← scan_uint32
  give (req_id, error_code)

-- `readError`: the code, the status and the error. The format has two verbs for the three variables
-- `reqID`, `errorCode` and `errorStatus`, so the status stays 0.
unfoldable pub read_error : Reader → ℕ × ℕ × Option GoError × Reader
read_error r =
    let (found, err, r1) = fscanf error_format r in
    let r2 = skip_to_newline r1 in
    elim found [ none ↦ (0, 0, err, r2) | some (req_id, error_code) ↦ (error_code, 0, none, r2) ]

time_runs :
    read_time (reader true (feed (codes "23 47 19 17 6 97 4 197 1") []))
    ≡ (date 1997 6 17 19 47 23, reader true [])
unfolding read_time read_uint32 read_byte date
time_runs = refl

error_runs :
    read_error (reader true (feed (codes "2 3\n=") []))
    ≡ (3, 0, none, reader true (feed (codes "=") []))
unfolding read_error fscanf scan_uint32 expect_space skip_to_newline read_byte
error_runs = refl

-- ===== src/Protocol/Requests/Reading/Arguments.antt =====
-- The lines of the client, read as a server reads them.
use komandgo.Base.{
  ◌⊎◌, inl, inr, ℕ, ◌+◌, ◌-◌, ◌<◌, ◌≤◌, ◌^◌, ◌≡◌, refl, ap, ◌∙◌, List, [], ◌∷◌, ◌++◌, map, Bool,
  true, false, Bytes, All, length, if◌then◌else◌, ◌==◌, arith,
}
use komandgo.Fmt.{format_decimal}
use komandgo.Hollerith.{show}
use komandgo.Hollerith.Scanning.{scan-sprint}
use komandgo.Io.{Read, byte, Reader, reader, feed, feed-append}
use komandgo.Protocol.Input.{read_uint32}
use komandgo.Protocol.Input.Numbers.{by_byte, read_uint32-format}
use komandgo.Protocol.Requests.{blanks}
use komandgo.Protocol.Requests.Reading.Bits.{Plain, Legible}
use komandgo.Protocol.Requests.Messages.{Argument, whole, counted, bits, numbers, moment, operand}
use komandgo.Protocol.Requests.Reading.{
  Kind, kind_of, word, read_moment, read_argument, read_arguments,
}
use komandgo.Types.Arrays.RoundTrip.{read_uint32_array-uint32_array}
use komandgo.Types.Time.{Civil, string_time, format_difference}
use komandgo.Utils.{read_byte}

-- What ends a word of a line: a blank or a newline.
abbrev pub IsBreak : ℕ → Type 0
IsBreak c = (c ≡ b' ') ⊎ (c ≡ 10)

-- A time that the protocol can write: the year is 1900 or later, and months and days of the year
-- count from 1.
pub record IsSendable (t : Civil) : Type 0 where
  pub second : t.second < 2 ^ 32
  pub minute : t.minute < 2 ^ 32
  pub hour : t.hour < 2 ^ 32
  pub day : t.day < 2 ^ 32
  pub month : (1 ≤ t.month) × (t.month < 2 ^ 32)
  pub year : (1900 ≤ t.year) × (t.year < 2 ^ 32)
  pub weekday : t.weekday < 2 ^ 32
  pub year_day : (1 ≤ t.year_day) × (t.year_day < 2 ^ 32)

-- What the types of the program hold: numbers are words of 32 bits, strings and arrays have a length
-- of type `int`.
abbrev pub Fits : Argument → Type 0
Fits (whole n) = n < 2 ^ 32
Fits (counted s) = length s < 2 ^ 63
Fits (bits b) = Unit
Fits (numbers ns) = All (λ n. n < 2 ^ 32) ns × (length ns < 2 ^ 63)
Fits (moment t) = IsSendable t

pub read_whole :
    (n c : ℕ) (xs : List Read)
    → n < 2 ^ 32
    → IsBreak c
    → read_uint32 (reader true (feed (format_decimal n) (byte c ∷ xs))) ≡ (n, reader true xs)
read_whole n c xs h b =
    read_uint32-format n true (by_byte c xs (ground (arith, b)))
    ∙ ap (λ m. (m, reader true xs)) (omega (arith, h))

word-feed :
    (w : Bytes) (c : ℕ) (xs : List Read)
    → Plain w
    → IsBreak c
    → word (feed w (byte c ∷ xs)) ≡ (w, xs)
unfolding word
word-feed [] c xs _ b = ground (arith, b)
word-feed (d ∷ w) c xs (hd, hw) b = ground (arith, word-feed w c xs hw b)

pub read_field :
    (n : ℕ) (s : Bytes) (xs : List Read)
    → n < 2 ^ 32
    → read_uint32 (reader true (feed (format_decimal n ++ b' ' ∷ s) xs))
      ≡ (n, reader true (feed s xs))
read_field n s xs h =
    rw (feed-append (format_decimal n) (b' ' ∷ s) xs) (read_whole n b' ' (feed s xs) h (inl refl))

format_difference-above : (y : ℕ) → 1900 ≤ y → format_difference y 1900 ≡ format_decimal (y - 1900)
unfolding format_difference
format_difference-above y h = ground (arith, h)

abbrev pub dst : Bool → ℕ
dst b = if b then 1 else 0

pub dst-lt : (b : Bool) → dst b < 2 ^ 32
dst-lt true = omega arith
dst-lt false = omega arith

dst-read : (b : Bool) → (dst b == 1) ≡ b
dst-read true = refl
dst-read false = refl

module _ (t : Civil) where
  -- The number at a place, with those behind it.
  abbrev pub text8 : Bytes
  text8 = format_decimal (t.year_day - 1) ++ b' ' ∷ format_decimal (dst t.is_dst)

  abbrev pub text7 : Bytes
  text7 = format_decimal t.weekday ++ b' ' ∷ text8

  abbrev pub text6 : Bytes
  text6 = format_decimal (t.year - 1900) ++ b' ' ∷ text7

  abbrev pub text5 : Bytes
  text5 = format_decimal (t.month - 1) ++ b' ' ∷ text6

  abbrev pub text4 : Bytes
  text4 = format_decimal t.day ++ b' ' ∷ text5

  abbrev pub text3 : Bytes
  text3 = format_decimal t.hour ++ b' ' ∷ text4

  abbrev pub text2 : Bytes
  text2 = format_decimal t.minute ++ b' ' ∷ text3

  abbrev pub text1 : Bytes
  text1 = format_decimal t.second ++ b' ' ∷ text2

  pub string_time-text1 : 1900 ≤ t.year → string_time t ≡ text1
  unfolding string_time
  string_time-text1 h = rw (format_difference-above t.year h) refl

read_moment-string_time :
    (t : Civil) (c : ℕ) (xs : List Read)
    → IsSendable t
    → IsBreak c
    → read_moment (reader true (feed (string_time t) (byte c ∷ xs))) ≡ (t, reader true xs)
unfolding read_moment
read_moment-string_time t c xs h b =
    let ys = byte c ∷ xs in
    let month_again : t.month - 1 + 1 ≡ t.month = omega (arith, h.month.0) in
    let year_again : 1900 + (t.year - 1900) ≡ t.year = omega (arith, h.year.0) in
    let day_again : t.year_day - 1 + 1 ≡ t.year_day = omega (arith, h.year_day.0) in
    rw (string_time-text1 t h.year.0) (
      rw
        (
          read_field t.second (text2 t) ys h.second,
          read_field t.minute (text3 t) ys h.minute,
          read_field t.hour (text4 t) ys h.hour,
          read_field t.day (text5 t) ys h.day,
          read_field (t.month - 1) (text6 t) ys (omega (arith, h.month.1)),
          read_field (t.year - 1900) (text7 t) ys (omega (arith, h.year.1)),
          read_field t.weekday (text8 t) ys h.weekday,
          read_field (t.year_day - 1) (format_decimal (dst t.is_dst)) ys
              (omega (arith, h.year_day.1)),
          read_whole (dst t.is_dst) c xs (dst-lt t.is_dst) b,
        )
        (λ i. (
          record t {
            month = month_again i;
            year = year_again i;
            year_day = day_again i;
            is_dst = dst-read t.is_dst i;
          },
          reader true xs,
        )))

read_argument-show :
    (a : Argument) (c : ℕ) (xs : List Read)
    → Fits a
    → Legible a
    → IsBreak c
    → read_argument (kind_of a) (reader true (feed (show (operand a)) (byte c ∷ xs)))
      ≡ (a, reader true xs)
unfolding read_argument show read_byte
read_argument-show (whole n) c xs h l b = rw (read_whole n c xs h b) refl
read_argument-show (counted s) c xs h l b = rw (scan-sprint s true (byte c ∷ xs) h) refl
read_argument-show (bits w) c xs h l b = rw (word-feed w c xs l b) refl
read_argument-show (numbers ns) c xs (h, hl) l b =
    rw (read_uint32_array-uint32_array ns (byte c ∷ xs) h hl) refl
read_argument-show (moment t) c xs h l b = rw (read_moment-string_time t c xs h b) refl

-- The rest of a line, with the end of it.
abbrev pub ending : List Argument → List Read → List Read
ending more rest = feed (blanks (map operand more)) (byte 10 ∷ rest)

pub feed-blanks :
    (a : Argument) (more : List Argument) (rest : List Read)
    → ending (a ∷ more) rest ≡ byte b' ' ∷ feed (show (operand a)) (ending more rest)
feed-blanks a more rest =
    ap (◌∷◌ (byte b' '))
      (feed-append (show (operand a)) (blanks (map operand more)) (byte 10 ∷ rest))

read_arguments-cons :
    (k : Kind) (ks : List Kind) (r : Reader) {a : Argument} {r1 : Reader}
    {out : List Argument × Reader}
    → read_argument k r ≡ (a, r1)
    → read_arguments ks r1 ≡ out
    → read_arguments (k ∷ ks) r ≡ (a ∷ out.0, out.1)
unfolding read_arguments
read_arguments-cons k ks r e f = rw e (rw f refl)

pub read_arguments_nil : (r : Reader) → read_arguments [] r ≡ ([], r)
unfolding read_arguments
read_arguments_nil r = refl

pub read_arguments-ending :
    (a : Argument) (more : List Argument) (rest : List Read)
    → All Fits (a ∷ more)
    → All Legible (a ∷ more)
    → read_arguments
        (map kind_of (a ∷ more))
        (reader true (feed (show (operand a)) (ending more rest)))
      ≡ (a ∷ more, reader true rest)
read_arguments-ending a [] rest (h, _) (l, _) =
    read_arguments-cons (kind_of a) [] _ (read_argument-show a 10 rest h l (inr refl))
      (read_arguments_nil (reader true rest))
read_arguments-ending a (b ∷ more) rest (h, hs) (l, ls) = rw (feed-blanks b more rest) (
    read_arguments-cons (kind_of a) (map kind_of (b ∷ more)) _
      (read_argument-show a b' ' (feed (show (operand b)) (ending more rest)) h l (inl refl))
      (read_arguments-ending b more rest hs ls))

-- ===== src/Protocol/Input/Times.antt =====
-- What `readTime` makes of a time that `StringTime` writes.
use komandgo.Base.{ℕ, ◌+◌, ◌-◌, ◌≡◌, ap, true, List, ◌∷◌, arith}
use komandgo.Fmt.{format_decimal}
use komandgo.Io.{Read, byte, reader, feed}
use komandgo.Protocol.Input.{read_time}
use komandgo.Protocol.Requests.Reading.Arguments.{
  IsBreak, IsSendable, read_whole, read_field, dst, dst-lt, text2, text3, text4, text5, text6,
  text7, text8, string_time-text1,
}
use komandgo.Types.Time.{Civil, string_time, date}

-- From what `StringTime` writes of a time that the protocol can hold, with a blank or a newline behind
-- it, `readTime` makes what `time.Date` makes of the same year, day, hour, minute and second and the
-- number of the month less one: the month goes over the wire counted from 0 and is taken as counted
-- from 1. `time.Date` lets a day that this month does not have run on into the next one.
pub read_time-string_time :
    (t : Civil) (c : ℕ) (xs : List Read)
    → IsSendable t
    → IsBreak c
    → read_time (reader true (feed (string_time t) (byte c ∷ xs)))
      ≡ (date t.year (t.month - 1) t.day t.hour t.minute t.second, reader true xs)
unfolding read_time
read_time-string_time t c xs h b =
    let end = read_whole (dst t.is_dst) c xs (dst-lt t.is_dst) b in
    let year_again : 1900 + (t.year - 1900) ≡ t.year = omega (arith, h.year.0) in
    rw (string_time-text1 t h.year.0) (
      rw
        (
          read_field t.second (text2 t) (byte c ∷ xs) h.second,
          read_field t.minute (text3 t) (byte c ∷ xs) h.minute,
          read_field t.hour (text4 t) (byte c ∷ xs) h.hour,
          read_field t.day (text5 t) (byte c ∷ xs) h.day,
          read_field (t.month - 1) (text6 t) (byte c ∷ xs) (omega (arith, h.month.1)),
          read_field (t.year - 1900) (text7 t) (byte c ∷ xs) (omega (arith, h.year.1)),
          read_field t.weekday (text8 t) (byte c ∷ xs) h.weekday,
          read_field (t.year_day - 1) (format_decimal (dst t.is_dst)) (byte c ∷ xs)
              (omega (arith, h.year_day.1)),
          end,
        )
        (ap (λ y. (date y (t.month - 1) t.day t.hour t.minute t.second, reader true xs))
          year_again))

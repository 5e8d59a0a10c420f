-- ===== src/Protocol/Handlers/Marks.antt =====
-- `getMarksCallback.OK` on any input.
use komandgo.Base.{
  ◌<◌, ◌^◌, Bool, All, length, codes, ℕ, ◌≡◌, ◌≢◌, refl, sym, ap, subst, ◌∙◌, List, [], ◌∷◌, ◌++◌,
  none, some, Option-cases, inl, inr,
}
use komandgo.Fmt.{format_decimal}
use komandgo.Io.{Read, byte, Reader, reader, feed}
use komandgo.Protocol.Handlers.Braced.{braced, read_count, read_braced}
use komandgo.Protocol.Lists.Parts.{parts, split-list}
use komandgo.Types.Records.{Mark}
use komandgo.Protocol.Handlers.Replies.{Replies}
use komandgo.Protocol.Handlers.Success.{get_marks_ok}
use komandgo.Protocol.Input.{read_uint32, read_delimited_list, skip_to_newline}
use komandgo.Protocol.Input.Lines.{read_delimited_list-utils, skip_to_newline-feed}
use komandgo.Protocol.Lists.{split, marks_loop, marks_start}
use komandgo.Protocol.Lists.Marks.{
  IsMark, flat, open_brace, marks_loop-parts, marks_loop-Blocked, split-Blocked,
}
use komandgo.Protocol.Response.{get_marks_response, answer}
use komandgo.Utils.Reading.{read_delimited_list-end}

-- A list that has been read holds parts that stop the loop.
list-marks :
    (n : ℕ) (r : Reader)
    → (read_delimited_list b'{' b'}' r).1 ≡ none
    → let tmp = split (read_delimited_list b'{' b'}' r).0 in
      marks_loop n tmp (marks_start tmp) [] ≢ none
list-marks n r h =
    let same = read_delimited_list-utils b'{' b'}' r in
    let (pre, e) = read_delimited_list-end b'{' b'}' r (sym (ap (λ x. x.1) same) ∙ h) in
    subst (λ s. marks_loop n (split s) (marks_start (split s)) [] ≢ none)
      (sym (ap (λ x. x.0) same ∙ e))
      (marks_loop-Blocked n (split (pre ++ b'}' ∷ [])) (marks_start (split (pre ++ b'}' ∷ []))) []
        (split-Blocked pre))

-- Whatever the input is, `getMarksCallback.OK` does not panic and starts one goroutine, which sends
-- one response on the channel of the callback and closes it: no count of marks makes it run off the
-- end of the list.
pub get_marks_ok-Replies : (c : ℕ) (r : Reader) → Replies c (get_marks_ok c r)
unfolding get_marks_ok
get_marks_ok-Replies c r =
    let (n, r1) = read_uint32 r in
    let (ar, err, r2) = read_delimited_list b'{' b'}' r1 in
    elim (Option-cases err) [
      | inr (e, broke) ↦
          (get_marks_response [] (some e), skip_to_newline r2, rw (broke, get_marks_ok) refl)
      | inl fine ↦ elim (Option-cases (marks_loop n (split ar) (marks_start (split ar)) [])) [
        | inl stuck ↦ elim (list-marks n r1 fine stuck) [ ]
        | inr ((marks, told), found) ↦ (
          get_marks_response marks told,
          skip_to_newline r2,
          rw (fine, get_marks_ok) (rw found refl),
        )
      ]
    ]

-- From a count, the list of that many marks, and the newline behind it, `getMarksCallback.OK` makes
-- one response with just these marks and no error, sent on its channel, which is then closed; the
-- whole line is taken and nothing behind it. The numbers have to be what a mark can hold.
pub get_marks_ok-marks :
    (c : ℕ) (ms : List Mark) (q : Bool) (rest : List Read)
    → All IsMark ms
    → length ms < 2 ^ 32
    → get_marks_ok c
        (reader q (feed (format_decimal (length ms) ++ b' ' ∷ braced (flat ms)) (byte 10 ∷ rest)))
      ≡ answer c (get_marks_response ms none) (reader q rest)
unfolding get_marks_ok
get_marks_ok-marks c ms q rest h hl =
    let list = codes "{" ∷ parts (flat ms) in
    rw (read_count (length ms) (flat ms) q (byte 10 ∷ rest) hl) (
      rw (read_braced (flat ms) q (byte 10 ∷ rest)) (
        rw (split-list (flat ms)) (
          rw (open_brace (flat ms), marks_loop-parts ms list 1 [] refl h)
            (ap (answer c (get_marks_response ms none)) (skip_to_newline-feed [] q rest tt)))))

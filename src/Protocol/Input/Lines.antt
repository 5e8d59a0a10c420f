-- ===== src/Protocol/Input/Lines.antt =====
-- Skipping to the end of a line, and reading a list.
use komandgo.Base.{
  ℕ, zero, suc, ◌+◌, ◌<◌, ◌≡◌, refl, ◌≢◌, Bool, List, [], ◌∷◌, ◌++◌, arith, Bytes, length, All,
  ne→not_==, ended_with, ap, some, Option, inl, inr, Option-cases, Bool-cases, ◌==◌, ◌∙◌,
}
use komandgo.Io.{GoError, Read, byte, Reader, reader, enough, feed}
use komandgo.Utils
use komandgo.Utils.{read_byte}
use komandgo.Utils.Reading.{length-feed, read_byte-length, list_loop-ends}
use komandgo.Protocol.Input.{skip_loop, skip_to_newline, list_loop, read_delimited_list}

skip_loop-feed :
    (fuel c : ℕ) (s : Bytes) (q : Bool) (rest : List Read)
    → All (λ x. x ≢ 10) (c ∷ s)
    → length s + 1 < fuel
    → skip_loop fuel c (reader q (feed s (byte 10 ∷ rest))) ≡ some (reader q rest)
unfolding skip_loop read_byte
skip_loop-feed zero c s q rest _ h = elim h [ ]
skip_loop-feed (suc zero) c s q rest _ h = absurd (omega arith)
skip_loop-feed (suc (suc fuel)) c [] q rest (hc, _) h = ground arith
skip_loop-feed (suc (suc fuel)) c (d ∷ s) q rest (hc, hs) h =
    rw (ne→not_== c 10 hc) (skip_loop-feed (suc fuel) d s q rest hs (omega arith))

skip_loop_at_end : (fuel : ℕ) (r : Reader) → skip_loop (suc fuel) 10 r ≡ some r
unfolding skip_loop
skip_loop_at_end fuel r = refl

-- `skipToNewline` takes the rest of a line with its newline, and nothing behind it.
pub skip_to_newline-feed :
    (s : Bytes) (q : Bool) (rest : List Read)
    → All (λ x. x ≢ 10) s
    → skip_to_newline (reader q (feed s (byte 10 ∷ rest))) ≡ reader q rest
unfolding skip_to_newline read_byte
skip_to_newline-feed [] q rest _ =
    ap (ended_with (reader q (byte 10 ∷ rest)))
      (skip_loop_at_end (suc (length rest)) (reader q rest))
skip_to_newline-feed (c ∷ s) q rest h = ap (ended_with (reader q (feed (c ∷ s) (byte 10 ∷ rest)))) (
    skip_loop-feed (suc (enough (reader q (feed s (byte 10 ∷ rest))))) c s q rest h
      (omega (arith, length-feed s (byte 10 ∷ rest))))

-- The copy of `ReadDelimitedList` in the client does what that does.
list_loop-utils :
    (fuel end : ℕ) (rv : Bytes) (r : Reader)
    → list_loop fuel end rv r ≡ Utils.list_loop fuel end rv r
unfolding list_loop Utils.list_loop
list_loop-utils zero end rv r = refl
list_loop-utils (suc fuel) end rv r =
    ground (arith, list_loop-utils fuel end (rv ++ (read_byte r).0 ∷ []) (read_byte r).2)

pub read_delimited_list-utils :
    (start end : ℕ) (r : Reader)
    → read_delimited_list start end r ≡ Utils.read_delimited_list start end r
unfolding read_delimited_list Utils.read_delimited_list
read_delimited_list-utils start end r =
    ground
      (arith, list_loop-utils (enough (read_byte r).2) end ((read_byte r).0 ∷ []) (read_byte r).2)

skip_loop-ends :
    (fuel c : ℕ) (r : Reader)
    → length r.input + 1 < fuel
    → (r' : Reader) × (skip_loop fuel c r ≡ some r')
unfolding skip_loop
skip_loop-ends zero c r h = elim h [ ]
skip_loop-ends (suc fuel) c r h = elim (Bool-cases (c == 10)) [
  | inl newline ↦ (r, rw newline refl)
  | inr other ↦ elim (Option-cases (read_byte r).1) [
    | inr (e, failed) ↦ ((read_byte r).2, rw (other, failed) refl)
    | inl fine ↦
        let (r', e) =
          skip_loop-ends fuel (read_byte r).0 (read_byte r).2 (elim (read_byte-length r) [
            | inl failed ↦ elim (failed fine) [ ]
            | inr shorter ↦ omega (arith, h, shorter)
          ]) in
        (r', rw (other, fine) e)
  ]
]

-- On every finite input, with the end of the input behind it, the loops of `ReadDelimitedList`, of its
-- copy in the client and of `skipToNewline` come to an end by themselves, whatever they have read
-- before: two rounds more than there are reads left are enough. The first two come to the same end.
pub reading_loops_end :
    (fuel end : ℕ) (rv : Bytes) (c : ℕ) (r : Reader)
    → length r.input + 1 < fuel
    → (v : Bytes × Option GoError × Reader) × (r' : Reader) × (Utils.list_loop fuel end rv r
        ≡ some v)
      × (list_loop fuel end rv r ≡ some v)
      × (skip_loop fuel c r ≡ some r')
reading_loops_end fuel end rv c r h =
    let (v, e, _) = list_loop-ends fuel end rv r (omega arith) in
    let (r', skipped) = skip_loop-ends fuel c r h in
    (v, r', e, list_loop-utils fuel end rv r ∙ e, skipped)

-- ===== src/Utils/Reading.antt =====
-- Reading bytes and lists between delimiters (pkg/utils/utils.go).
use komandgo.Base.{
  ℕ, zero, suc, ◌+◌, ◌<◌, ◌≡◌, refl, ◌≢◌, ◌⊎◌, Bool, List, [], ◌∷◌, ◌++◌, none, some, true, false,
  append_assoc, arith, sym, ap, ◌∙◌, inl, inr, Option-cases, Option, ended_with, Bool-cases, ◌==◌,
  ==→eq, not, ◌&&◌, Bytes, length, All, ==_refl, ne→not_==,
}
use komandgo.Io.{GoError, Read, byte, nothing, fail, Reader, reader, enough, feed}
use komandgo.Utils.{read_byte, read_byte_from, list_loop, read_delimited_list}

read_byte_from-length :
    (q : Bool) (xs : List Read)
    → ((read_byte_from q xs).1 ≢ none) ⊎ (length (read_byte_from q xs).2.input < length xs)
unfolding read_byte_from
read_byte_from-length q [] = ground arith
read_byte_from-length q (nothing ∷ xs) = ground (arith, read_byte_from-length q xs)
read_byte_from-length q (fail e ∷ xs) = ground arith
read_byte_from-length q (byte b ∷ xs) = ground arith

-- A read that does not fail leaves less to read.
pub read_byte-length :
    (r : Reader) → ((read_byte r).1 ≢ none) ⊎ (length (read_byte r).2.input < length r.input)
unfolding read_byte
read_byte-length r = read_byte_from-length r.rune_scanner r.input

pub read_byte-feed :
    (q : Bool) (b : ℕ) (xs : List Read)
    → read_byte (reader q (byte b ∷ xs)) ≡ (b, none, reader q xs)
unfolding read_byte
read_byte-feed q b xs = refl

pub length-feed : (s : Bytes) (rest : List Read) → length (feed s rest) ≡ length s + length rest
length-feed [] rest = omega arith
length-feed (c ∷ s) rest = omega (arith, length-feed s rest)

list_loop-feed :
    (fuel end : ℕ) (rv s : Bytes) (q : Bool) (rest : List Read)
    → length s < fuel
    → All (λ c. c ≢ end) s
    → list_loop fuel end rv (reader q (feed s (byte end ∷ rest)))
      ≡ some (rv ++ (s ++ end ∷ []), none, reader q rest)
unfolding list_loop read_byte
list_loop-feed zero end rv s q rest h _ = elim h [ ]
list_loop-feed (suc fuel) end rv [] q rest h _ = rw (==_refl end)
list_loop-feed (suc fuel) end rv (c ∷ s) q rest h (hc, hs) =
    rw (ne→not_== c end hc, list_loop-feed fuel end (rv ++ c ∷ []) s q rest (omega arith) hs)
      (rw (append_assoc rv (c ∷ []) (s ++ end ∷ [])))

-- A list between its delimiters is read whole, up to the first end byte and no further.
pub read_delimited_list-feed :
    (start end : ℕ) (s : Bytes) (q : Bool) (rest : List Read)
    → All (λ c. c ≢ end) s
    → read_delimited_list start end (reader q (feed (start ∷ s) (byte end ∷ rest)))
      ≡ (start ∷ (s ++ end ∷ []), none, reader q rest)
unfolding read_delimited_list read_byte
read_delimited_list-feed start end s q rest h = ground (
  arith,
  list_loop-feed (enough (reader q (feed s (byte end ∷ rest)))) end (start ∷ []) s q rest,
  length-feed s (byte end ∷ rest),
)

-- A round of the loop: it ends at an error or at the end byte, or goes on.
module _ (fuel end : ℕ) (rv : Bytes) (r : Reader) where
  list_loop_broken :
      {e : GoError}
      → (read_byte r).1 ≡ some e
      → list_loop (suc fuel) end rv r ≡ some (rv, some e, (read_byte r).2)
  unfolding list_loop
  list_loop_broken h = rw (h, list_loop) refl

  list_loop_last :
      (read_byte r).1 ≡ none
      → ((read_byte r).0 == end) ≡ true
      → list_loop (suc fuel) end rv r ≡ some (rv ++ (read_byte r).0 ∷ [], none, (read_byte r).2)
  unfolding list_loop
  list_loop_last h l = rw (h, list_loop) (rw l refl)

  list_loop_more :
      (read_byte r).1 ≡ none
      → ((read_byte r).0 == end) ≡ false
      → list_loop (suc fuel) end rv r
        ≡ list_loop fuel end (rv ++ (read_byte r).0 ∷ []) (read_byte r).2
  unfolding list_loop
  list_loop_more h l = rw (h, list_loop) (rw l refl)

-- The loop ends within a round more than there are reads left; a list that is read without an error
-- ends with its end byte.
pub list_loop-ends :
    (fuel end : ℕ) (rv : Bytes) (r : Reader)
    → length r.input < fuel
    → (v : Bytes × Option GoError × Reader) × (list_loop fuel end rv r ≡ some v)
      × (v.1 ≡ none → (pre : Bytes) × (v.0 ≡ pre ++ end ∷ []))
list_loop-ends zero end rv r hf = elim hf [ ]
list_loop-ends (suc fuel) end rv r hf = elim (Option-cases (read_byte r).1) [
  | inr (e, broke) ↦
      ((rv, some e, (read_byte r).2), list_loop_broken fuel end rv r broke, λ h. absurd cc)
  | inl fine ↦ elim (Bool-cases ((read_byte r).0 == end)) [
    | inl last ↦ (
      (rv ++ (read_byte r).0 ∷ [], none, (read_byte r).2),
      list_loop_last fuel end rv r fine last,
      λ h. (rv, ap (λ b. rv ++ b ∷ []) (==→eq (read_byte r).0 end last)),
    )
    | inr more ↦
        let (v, e, h) =
          list_loop-ends fuel end (rv ++ (read_byte r).0 ∷ []) (read_byte r).2
            (elim (read_byte-length r) [
              | inl failed ↦ elim (failed fine) [ ]
              | inr shorter ↦ omega (arith, hf, shorter)
            ]) in
        (v, list_loop_more fuel end rv r fine more ∙ e, h)
  ]
]

-- The start of a list: an error, a byte that is not the one wanted, or the list.
module _ (start end : ℕ) (r : Reader) where
  start_broken :
      {e : GoError} → (read_byte r).1 ≡ some e → (read_delimited_list start end r).1 ≢ none
  unfolding read_delimited_list
  start_broken h = ground (arith, h)

  start_wrong :
      (read_byte r).1 ≡ none
      → (not (start == 0) && not ((read_byte r).0 == start)) ≡ true
      → (read_delimited_list start end r).1 ≢ none
  unfolding read_delimited_list
  start_wrong h w = ground (arith, h, w)

  start_right :
      (read_byte r).1 ≡ none
      → (not (start == 0) && not ((read_byte r).0 == start)) ≡ false
      → read_delimited_list start end r
        ≡ ended_with
            ([], none, (read_byte r).2)
            (list_loop (enough (read_byte r).2) end ((read_byte r).0 ∷ []) (read_byte r).2)
  unfolding read_delimited_list
  start_right h w = rw (h, read_delimited_list) (rw w refl)

-- A list that `ReadDelimitedList` gives without an error ends with its end byte.
pub read_delimited_list-end :
    (start end : ℕ) (r : Reader)
    → (read_delimited_list start end r).1 ≡ none
    → (pre : Bytes) × ((read_delimited_list start end r).0 ≡ pre ++ end ∷ [])
read_delimited_list-end start end r h = elim (Option-cases (read_byte r).1) [
  | inr (e, broke) ↦ elim (start_broken start end r broke h) [ ]
  | inl fine ↦ elim (Bool-cases (not (start == 0) && not ((read_byte r).0 == start))) [
    | inl other ↦ elim (start_wrong start end r fine other h) [ ]
    | inr started ↦
        let whole = start_right start end r fine started in
        let (v, e, h') =
          list_loop-ends (enough (read_byte r).2) end ((read_byte r).0 ∷ []) (read_byte r).2
            (omega arith) in
        let same = whole ∙ ap (ended_with ([], none, (read_byte r).2)) e in
        let (pre, found) = h' (sym (ap (λ x. x.1) same) ∙ h) in (pre, ap (λ x. x.0) same ∙ found)
  ]
]

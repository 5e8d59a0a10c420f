-- ===== src/Protocol/Client/Sending.antt =====
-- The rounds of `send`, and what it puts on the wire of a socket that moves.
pub mod Stalls
use Prim.Native.Nat.{min}
use native.Mathlib.Decide.{dec_lt}
use native.Mathlib.Nat.{zero-add, suc-add}
use komandgo.Base.{
  ◌∙◌, ℕ, zero, suc, ◌+◌, ◌≤◌, ◌<◌, ◌≡◌, refl, sym, subst, List, [], ◌∷◌, ◌++◌, Option, none, some,
  append-nil, append_assoc, ap, arith, Bytes, length, take, drop, lt→not_leb, le→leb, ◌⊎◌, inl, inr,
  All, Option-cases,
}
use komandgo.Io.{
  GoError, Wrote, takes, takes_all, breaks, Writer, write, broken, outcome_at, outcome, taken_by,
  error_of, written,
}
use komandgo.Protocol.Client.{send_loop, end_line, send_line}

-- A call of `Write` that takes a byte at least, and does not fail.
abbrev pub Moves : Wrote → Type 0
Moves (takes n) = 0 < n
Moves takes_all = Unit
Moves (breaks n e) = ⊥

-- Every call does, those behind the listed ones included.
abbrev pub AlwaysMoves : Writer → Type 0
AlwaysMoves w = All Moves w.outcomes × Moves w.behind

pub take_all : (n : ℕ) (b : Bytes) → length b ≤ n → take n b ≡ b
take_all zero [] h = refl
take_all (suc n) [] h = refl
take_all zero (c ∷ b) h = elim h [ ]
take_all (suc n) (c ∷ b) h = ap (◌∷◌ c) (take_all n b (omega arith))

pub take-drop : (n : ℕ) (b : Bytes) → take n b ++ drop n b ≡ b
take-drop zero b = refl
take-drop (suc n) [] = refl
take-drop (suc n) (c ∷ b) = ap (◌∷◌ c) (take-drop n b)

pub length-drop : (n : ℕ) (b : Bytes) → n ≤ length b → n + length (drop n b) ≡ length b
length-drop zero b h = omega arith
length-drop (suc n) [] h = elim h [ ]
length-drop (suc n) (c ∷ b) h = omega (arith, length-drop n b (omega arith))

take_nil : (k : ℕ) → take {A = ℕ} k [] ≡ []
take_nil zero = refl
take_nil (suc k) = refl

pub take-take : (n k : ℕ) (b : Bytes) → take n b ++ take k (drop n b) ≡ take (n + k) b
take-take zero k b = rw zero-add
take-take (suc n) k [] = rw (take_nil k, take_nil (suc n + k))
take-take (suc n) k (c ∷ b) = rw suc-add (ap (◌∷◌ c) (take-take n k b))

pub outcome_at-drop :
    (ws : List Wrote) (d : Wrote) (i : ℕ) → outcome_at (drop 1 ws) d i ≡ outcome_at ws d (suc i)
outcome_at-drop [] d i = refl
outcome_at-drop (e ∷ ws) d i = refl

taken_by-le : (d : Wrote) (b : Bytes) → taken_by d b ≤ length b
taken_by-le (takes n) b = omega arith
taken_by-le takes_all b = omega arith
taken_by-le (breaks n e) b = omega arith

-- The rounds of the loop: a failure, the last one, and one before it.
module _ (fuel : ℕ) (b : Bytes) (w : Writer) where
  pub send_loop_broken :
      (e : GoError)
      → error_of (outcome w 0) ≡ some e
      → send_loop (suc fuel) b w ≡ some (some e, written w b)
  unfolding send_loop write
  send_loop_broken e h = rw (h, send_loop) refl

  pub send_loop_done :
      error_of (outcome w 0) ≡ none
      → length b ≤ taken_by (outcome w 0) b
      → send_loop (suc fuel) b w ≡ some (none, written w b)
  unfolding send_loop write
  send_loop_done h enough =
      rw (h, send_loop) (rw (le→leb (length b) (taken_by (outcome w 0) b) enough) refl)

  pub send_loop_more :
      error_of (outcome w 0) ≡ none
      → taken_by (outcome w 0) b < length b
      → send_loop (suc fuel) b w ≡ send_loop fuel (drop (taken_by (outcome w 0) b) b) (written w b)
  unfolding send_loop write
  send_loop_more h more =
      rw (h, send_loop) (rw (lt→not_leb (taken_by (outcome w 0) b) (length b) more) refl)

Moves-error_of : (d : Wrote) → Moves d → error_of d ≡ none
Moves-error_of (takes n) h = refl
Moves-error_of takes_all h = refl
Moves-error_of (breaks n e) h = absurd h

Moves-taken_by : (d : Wrote) (b : Bytes) → Moves d → 0 < length b → 0 < taken_by d b
Moves-taken_by (takes n) b h left = omega arith
Moves-taken_by takes_all b h left = left
Moves-taken_by (breaks n e) b h left = absurd h

Moves-outcome : (w : Writer) → AlwaysMoves w → Moves (outcome w 0)
Moves-outcome w (listed, last) = go w.outcomes listed
  where
    go : (ws : List Wrote) → All Moves ws → Moves (outcome_at ws w.behind 0)
    go [] h = last
    go (d ∷ ws) (h, _) = h

All-tail : (ws : List Wrote) → All Moves ws → All Moves (drop 1 ws)
All-tail [] h = tt
All-tail (d ∷ ws) (_, h) = h

-- On a socket that moves, every round leaves fewer bytes.
send_loop-AlwaysMoves :
    (fuel : ℕ) (b : Bytes) (w : Writer)
    → AlwaysMoves w
    → length b < fuel
    → (w' : Writer) × (send_loop fuel b w ≡ some (none, w'))
      × AlwaysMoves w'
      × (w'.wire ≡ w.wire ++ b)
send_loop-AlwaysMoves zero b w moves h = elim h [ ]
send_loop-AlwaysMoves (suc fuel) b w moves h =
    let n = taken_by (outcome w 0) b in
    let first = Moves-outcome w moves in
    let fine = Moves-error_of (outcome w 0) first in
    let later : AlwaysMoves (written w b) = (All-tail w.outcomes moves.0, moves.1) in
    elim (dec_lt n (length b)) [
      | no last ↦ (
        written w b,
        send_loop_done fuel b w fine (omega arith),
        later,
        ap (◌++◌ w.wire) (take_all n b (omega arith)),
      )
      | yes more ↦
          let taken = Moves-taken_by (outcome w 0) b first (omega arith) in
          let fewer = length-drop n b (taken_by-le (outcome w 0) b) in
          let (w', e, moves', out) =
            send_loop-AlwaysMoves fuel (drop n b) (written w b) later (omega arith) in
          (
            w',
            send_loop_more fuel b w fine more ∙ e,
            moves',
            out ∙ append_assoc w.wire (take n b) (drop n b) ∙ ap (◌++◌ w.wire) (take-drop n b),
          )
    ]

-- On a socket whose calls take a byte at least and do not fail, `send` returns, with no error, and has
-- put the line and a newline on the wire.
pub send_line-AlwaysMoves :
    (s : Bytes) (w : Writer)
    → AlwaysMoves w
    → (w' : Writer) × (send_line s w ≡ some (none, w')) × (w'.wire ≡ w.wire ++ (s ++ 10 ∷ []))
unfolding send_line end_line write
send_line-AlwaysMoves s w moves =
    let rounds = suc (length w.outcomes + length s) in
    let (w', e, moves', out) = send_loop-AlwaysMoves rounds s w moves (omega arith) in
    let d = outcome w' 0 in
    let whole =
      take_all (taken_by d (10 ∷ [])) (10 ∷ [])
        (Moves-taken_by d (10 ∷ []) (Moves-outcome w' moves') (omega arith)) in
    (
      written w' (10 ∷ []),
      rw e refl,
      ap (◌++◌ w'.wire) whole ∙ ap (λ x. x ++ 10 ∷ []) out ∙ append_assoc w.wire s (10 ∷ []),
    )

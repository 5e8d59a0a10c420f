-- ===== src/Protocol/Client/Sending/Stalls.antt =====
-- What `send` comes to, whatever the socket does.
use Prim.Native.Nat.{min}
use native.Mathlib.Decide.{dec_lt}
use komandgo.Base.{
  ◌∙◌, ℕ, zero, suc, ◌+◌, ◌≤◌, ◌<◌, ◌≡◌, refl, sym, subst, List, [], ◌∷◌, ◌++◌, Option, none, some,
  append-nil, append_assoc, ap, arith, Bytes, length, take, drop, ◌⊎◌, inl, inr, Option-cases,
}
use komandgo.Io.{
  GoError, Wrote, takes, takes_all, breaks, Writer, write, outcome_at, outcome, taken_by, error_of,
  written,
}
use komandgo.Protocol.Client.{send_loop, end_line, send_line}
use komandgo.Protocol.Client.Sending.{
  take_all, take-drop, length-drop, take-take, outcome_at-drop, send_loop_broken, send_loop_done,
  send_loop_more,
}

-- What the loop can come to with the bytes `b` left: after `i` calls without an error all is out, or
-- the call behind them fails and some first bytes are out.
abbrev Ended : Bytes → Writer → Option GoError × Writer → Type 0
Ended b w (none, w') =
    (i : ℕ) × (w' ≡ record w { outcomes = drop i w.outcomes; wire = w.wire ++ b })
    × ((j : ℕ) → j < i → error_of (outcome w j) ≡ none)
Ended b w (some e, w') =
    (i : ℕ) × (k : ℕ) × (w'.wire ≡ w.wire ++ take k b)
    × (w'.outcomes ≡ drop (suc i) w.outcomes)
    × (error_of (outcome w i) ≡ some e)
    × ((j : ℕ) → j < i → error_of (outcome w j) ≡ none)

-- The other end: no call behind the listed ones takes anything or fails, there are bytes, and the
-- loop goes on whatever the number of rounds is.
abbrev pub Stuck : Bytes → Writer → Type 0
Stuck b w = (w.behind ≡ takes 0) × (0 < length b) × ((fuel : ℕ) → send_loop fuel b w ≡ none)

drop-drop : (i : ℕ) (ws : List Wrote) → drop i (drop 1 ws) ≡ drop (suc i) ws
drop-drop zero [] = refl
drop-drop (suc i) [] = refl
drop-drop i (d ∷ ws) = refl

module _ (w : Writer) (fine : error_of (outcome w 0) ≡ none) where
  fine-suc :
      (b : Bytes) (i : ℕ)
      → ((j : ℕ) → j < i → error_of (outcome (written w b) j) ≡ none)
      → (j : ℕ) → j < suc i
      → error_of (outcome w j) ≡ none
  fine-suc b i h zero less = fine
  fine-suc b i h (suc j) less =
      ap error_of (sym (outcome_at-drop w.outcomes w.behind j)) ∙ h j (omega arith)

-- One round, and then the rest.
Ended-more :
    (b : Bytes) (w : Writer) (r : Option GoError × Writer)
    → error_of (outcome w 0) ≡ none
    → Ended (drop (taken_by (outcome w 0) b) b) (written w b) r
    → Ended b w r
Ended-more b w (none, w') fine (i, e, h) =
    let n = taken_by (outcome w 0) b in
    (
      suc i,
      e
          ∙ ap (λ ws. record w { outcomes = ws; wire = (w.wire ++ take n b) ++ drop n b })
              (drop-drop i w.outcomes)
          ∙ ap (λ x. record w { outcomes = drop (suc i) w.outcomes; wire = x })
              (append_assoc w.wire (take n b) (drop n b) ∙ ap (◌++◌ w.wire) (take-drop n b)),
      fine-suc w fine b i h,
    )
Ended-more b w (some e, w') fine (i, k, out, left, failed, h) =
    let n = taken_by (outcome w 0) b in
    (
      suc i,
      n + k,
      out ∙ append_assoc w.wire (take n b) (take k (drop n b)) ∙ ap (◌++◌ w.wire) (take-take n k b),
      left ∙ drop-drop (suc i) w.outcomes,
      ap error_of (sym (outcome_at-drop w.outcomes w.behind i)) ∙ failed,
      fine-suc w fine b i h,
    )

abbrev Comes : ℕ → Bytes → Writer → Type 0
Comes fuel b w =
    ((r : Option GoError × Writer) × (send_loop fuel b w ≡ some r) × Ended b w r) ⊎ Stuck b w

send_loop_never :
    (b : Bytes) (w : Writer)
    → error_of (outcome w 0) ≡ none
    → taken_by (outcome w 0) b < length b
    → ((fuel : ℕ) → send_loop fuel (drop (taken_by (outcome w 0) b) b) (written w b) ≡ none)
    → (fuel : ℕ) → send_loop fuel b w ≡ none
unfolding send_loop
send_loop_never b w fine more runs zero = refl
send_loop_never b w fine more runs (suc fuel) = send_loop_more fuel b w fine more ∙ runs fuel

Stuck-more :
    (b : Bytes) (w : Writer)
    → error_of (outcome w 0) ≡ none
    → taken_by (outcome w 0) b < length b
    → Stuck (drop (taken_by (outcome w 0) b) b) (written w b)
    → Stuck b w
Stuck-more b w fine more (stops, left, runs) =
    (stops, omega arith, send_loop_never b w fine more runs)

-- A call that takes nothing, with none listed behind it.
only_takes_0 :
    (d : Wrote) (b : Bytes) → error_of d ≡ none → 0 < length b → taken_by d b ≡ 0 → d ≡ takes 0
only_takes_0 (takes zero) b fine left h = refl
only_takes_0 (takes (suc n)) b fine left h = absurd (omega arith)
only_takes_0 takes_all b fine left h = absurd (omega arith)
only_takes_0 (breaks n e) b fine left h = cc

-- A call that takes nothing changes nothing.
module _ (out b : Bytes) (left : 0 < length b) where
  abbrev deaf : Writer
  deaf = record { outcomes = []; behind = takes 0; wire = out }

  none_taken : min 0 (length b) ≡ 0
  none_taken = omega arith

  deaf-never : (fuel : ℕ) → send_loop fuel b deaf ≡ none
  unfolding send_loop
  deaf-never zero = refl
  deaf-never (suc fuel) =
      send_loop_more fuel b deaf refl (omega arith)
      ∙ ap (λ n. send_loop fuel (drop n b) (record deaf { wire = out ++ take n b })) none_taken
      ∙ ap (λ x. send_loop fuel b (record deaf { wire = x })) (append-nil out)
      ∙ deaf-never fuel

Stuck-deaf :
    (b : Bytes) (w : Writer) → w.outcomes ≡ [] → w.behind ≡ takes 0 → 0 < length b → Stuck b w
Stuck-deaf b w listed stops left =
    subst (Stuck b)
      (sym (
        ap (λ ws. record w { outcomes = ws }) listed
        ∙ ap (λ d. record w { outcomes = []; behind = d }) stops))
      (refl, left, deaf-never w.wire b left)

-- A round without an error that is not the last leaves less to do, or it does nothing.
round_cases :
    (ws : List Wrote) (d : Wrote) (b : Bytes)
    → let n = taken_by (outcome_at ws d 0) b in
      error_of (outcome_at ws d 0) ≡ none
      → n < length b
      → ((ws ≡ []) × (d ≡ takes 0))
        ⊎ (length (drop 1 ws) + length (drop n b) < length ws + length b)
round_cases [] d b fine more = elim (dec_lt 0 (taken_by d b)) [
  | yes some_taken ↦ inr (omega (arith, length-drop (taken_by d b) b (omega arith)))
  | no none_taken ↦ inl (refl, only_takes_0 d b fine (omega arith) (omega arith))
]
round_cases (e ∷ ws) d b fine more = inr (omega (arith, length-drop (taken_by e b) b (omega arith)))

Comes-more :
    (fuel : ℕ) (b : Bytes) (w : Writer)
    → error_of (outcome w 0) ≡ none
    → taken_by (outcome w 0) b < length b
    → Comes fuel (drop (taken_by (outcome w 0) b) b) (written w b)
    → Comes (suc fuel) b w
Comes-more fuel b w fine more (inl (r, e, h)) =
    inl (r, send_loop_more fuel b w fine more ∙ e, Ended-more b w r fine h)
Comes-more fuel b w fine more (inr s) = inr (Stuck-more b w fine more s)

Ended-done :
    (b : Bytes) (w : Writer)
    → error_of (outcome w 0) ≡ none
    → length b ≤ taken_by (outcome w 0) b
    → Ended b w (none, written w b)
Ended-done b w fine last = (
  1,
  ap (λ x. record w { outcomes = drop 1 w.outcomes; wire = w.wire ++ x })
      (take_all (taken_by (outcome w 0) b) b last),
  fine-suc w fine b 0 (λ j less. absurd (omega arith)),
)

-- These rounds are enough for the loop to come to its end, where it has one.
send_loop-Comes :
    (fuel : ℕ) (b : Bytes) (w : Writer) → length w.outcomes + length b < fuel → Comes fuel b w
send_loop-Comes zero b w h = elim h [ ]
send_loop-Comes (suc fuel) b w h =
    let n = taken_by (outcome w 0) b in
    elim (Option-cases (error_of (outcome w 0))) [
      | inr (e, broke) ↦ inl (
        (some e, written w b),
        send_loop_broken fuel b w e broke,
        (0, n, refl, refl, broke, λ j less. absurd (omega arith)),
      )
      | inl fine ↦ elim (dec_lt n (length b)) [
        | no last ↦ inl (
          (none, written w b),
          send_loop_done fuel b w fine (omega arith),
          Ended-done b w fine (omega arith),
        )
        | yes more ↦ elim (round_cases w.outcomes w.behind b fine more) [
          | inl (listed, stops) ↦ inr (Stuck-deaf b w listed stops (omega arith))
          | inr less ↦
              Comes-more fuel b w fine more
                (send_loop-Comes fuel (drop n b) (written w b) (omega arith))
        ]
      ]
    ]

-- What `send` returns, after `i` calls of `Write` without an error and one more. With no error the
-- whole line is out, and behind it what the last call takes of the newline. With an error, it is that
-- of the last call, and some first bytes of the line are out.
abbrev pub Sent : Bytes → Writer → Option GoError × Writer → Type 0
Sent s w (none, w') =
    (i : ℕ) × (w'.wire ≡ (w.wire ++ s) ++ take (taken_by (outcome w i) (10 ∷ [])) (10 ∷ []))
    × (w'.outcomes ≡ drop (suc i) w.outcomes)
    × ((j : ℕ) → j < i → error_of (outcome w j) ≡ none)
Sent s w (some e, w') =
    (i : ℕ) × (k : ℕ) × (w'.wire ≡ w.wire ++ take k s)
    × (w'.outcomes ≡ drop (suc i) w.outcomes)
    × (error_of (outcome w i) ≡ some e)
    × ((j : ℕ) → j < i → error_of (outcome w j) ≡ none)

drop_1-drop : (i : ℕ) (ws : List Wrote) → drop 1 (drop i ws) ≡ drop (suc i) ws
drop_1-drop zero ws = refl
drop_1-drop (suc i) [] = refl
drop_1-drop (suc i) (d ∷ ws) = drop_1-drop i ws

outcome_at-0 :
    (ws : List Wrote) (d : Wrote) (i : ℕ) → outcome_at (drop i ws) d 0 ≡ outcome_at ws d i
outcome_at-0 ws d zero = refl
outcome_at-0 [] d (suc i) = refl
outcome_at-0 (e ∷ ws) d (suc i) = outcome_at-0 ws d i

end_line-Sent :
    (s : Bytes) (w : Writer) (r : Option GoError × Writer) → Ended s w r → Sent s w (end_line r)
unfolding end_line write
end_line-Sent s w (some e, w') h = h
end_line-Sent s w (none, w') (i, e, fine) = (
  i,
  ap (λ v. v.wire ++ take (taken_by (outcome v 0) (10 ∷ [])) (10 ∷ [])) e
      ∙ ap (λ d. (w.wire ++ s) ++ take (taken_by d (10 ∷ [])) (10 ∷ []))
          (outcome_at-0 w.outcomes w.behind i),
  ap (λ v. drop 1 v.outcomes) e ∙ drop_1-drop i w.outcomes,
  fine,
)

-- Whatever the socket does, `send` returns after some calls of `Write` without an error and one more,
-- or it never returns. Where it returns no error, the whole line is out, and behind it what the last
-- call takes of the newline, whether that call fails or not; where it returns an error, it is that of
-- the last call, and some first bytes of the line are out. It never returns only where the line
-- is not empty and every call behind the listed ones takes no byte and gives no error, and then no
-- number of rounds is enough.
pub send_line-Sent :
    (s : Bytes) (w : Writer)
    → ((r : Option GoError × Writer) × (send_line s w ≡ some r) × Sent s w r) ⊎ Stuck s w
unfolding send_line
send_line-Sent s w = elim (send_loop-Comes (suc (length w.outcomes + length s)) s w (omega arith)) [
  | inl (r, e, h) ↦ inl (end_line r, rw e refl, end_line-Sent s w r h)
  | inr never ↦ inr never
]

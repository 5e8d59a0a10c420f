-- ===== src/Protocol/Channels/Replies.antt =====
-- One goroutine that sends a value on a channel and closes it, and two of them on one channel, under
-- any schedule.
use komandgo.Base.{
  ℕ, zero, suc, ◌≡◌, refl, true, false, List, [], ◌∷◌, ◌++◌, ◌⊎◌, inl, inr, sym, subst, ◌∙◌,
}
use komandgo.Protocol.Response.{Response, closes, send_and_close}
use komandgo.Protocol.Channels.{Channel, Outcome, going, crashed, turn, run, awaiting}

-- The states of a channel with one such goroutine.
data Stage (c : ℕ) (v : Response) : Channel → Type 0 where
  waits : Stage c v (awaiting (send_and_close c v ∷ []))
  has_sent :
      Stage c v
        (record { running = (closes c ∷ []) ∷ []; closed = false; takers = 0; taken = v ∷ [] })
  has_closed : Stage c v (record { running = [] ∷ []; closed = true; takers = 0; taken = v ∷ [] })

-- The states that a schedule can lead to.
turn-Stage :
    (c : ℕ) (v : Response) {ch : Channel} (i n : ℕ)
    → Stage c v ch
    → (ch' : Channel) × (turn i n ch ≡ going ch') × Stage c v ch'
unfolding turn
turn-Stage c v zero zero waits = (_, refl, has_sent)
turn-Stage c v zero (suc n) waits = (_, refl, has_sent)
turn-Stage c v (suc i) n waits = (_, refl, waits)
turn-Stage c v zero n has_sent = (_, refl, has_closed)
turn-Stage c v (suc i) n has_sent = (_, refl, has_sent)
turn-Stage c v zero n has_closed = (_, refl, has_closed)
turn-Stage c v (suc i) n has_closed = (_, refl, has_closed)

run-Stage :
    (c : ℕ) (v : Response) (es : List (ℕ × ℕ)) {ch : Channel}
    → Stage c v ch
    → (ch' : Channel) × (run es (going ch) ≡ going ch') × Stage c v ch'
unfolding run
run-Stage c v [] {ch} s = (ch, refl, s)
run-Stage c v ((i, n) ∷ es) s =
    let (ch1, e1, s1) = turn-Stage c v i n s in
    let (ch2, e2, s2) = run-Stage c v es s1 in (ch2, rw e1 e2, s2)

pub run-append : (es fs : List (ℕ × ℕ)) (o : Outcome) → run (es ++ fs) o ≡ run fs (run es o)
unfolding run
run-append [] fs o = refl
run-append (e ∷ es) [] crashed = refl
run-append (e ∷ es) (f ∷ fs) crashed = refl
run-append ((i, n) ∷ es) fs (going ch) = run-append es fs (turn i n ch)

-- What a caller may see of a channel on which one value is sent.
abbrev pub AtMost : Response → Channel → Type 0
AtMost v ch = (ch.taken ≡ []) ⊎ (ch.taken ≡ v ∷ [])

Stage-AtMost : (c : ℕ) (v : Response) {ch : Channel} → Stage c v ch → AtMost v ch
Stage-AtMost c v waits = inl refl
Stage-AtMost c v has_sent = inr refl
Stage-AtMost c v has_closed = inr refl

-- The end: the value is received and the channel closed.
abbrev pub Answered : Response → Outcome → Type 0
Answered v o = (ch : Channel) × (o ≡ going ch) × (ch.taken ≡ v ∷ []) × (ch.closed ≡ true)

Stage-Answered :
    (c : ℕ) (v : Response) {ch : Channel}
    → Stage c v ch
    → Answered v (run ((0, 0) ∷ (0, 0) ∷ []) (going ch))
unfolding run turn
Stage-Answered c v waits = (_, refl, refl, refl)
Stage-Answered c v has_sent = (_, refl, refl, refl)
Stage-Answered c v has_closed = (_, refl, refl, refl)

-- After any schedule of a goroutine that sends a value and closes the channel, with one caller that
-- waits, nothing has crashed and the caller has nothing or just that value; and two more turns of the
-- goroutine give it the value and close the channel.
pub run-send_and_close :
    (c : ℕ) (v : Response) (es : List (ℕ × ℕ))
    → let start = going (awaiting (send_and_close c v ∷ [])) in
      ((ch : Channel) × (run es start ≡ going ch) × AtMost v ch)
      × Answered v (run (es ++ (0, 0) ∷ (0, 0) ∷ []) start)
run-send_and_close c v es =
    let (ch, e, s) = run-Stage c v es waits in
    (
      (ch, e, Stage-AtMost c v s),
      rw (run-append es ((0, 0) ∷ (0, 0) ∷ []) (going (awaiting (send_and_close c v ∷ []))), e)
          (Stage-Answered c v s),
    )

-- The states of a channel with two such goroutines.
data Pair (c : ℕ) (v w : Response) : Outcome → Type 0 where
  both_wait : Pair c v w (going (awaiting (send_and_close c v ∷ send_and_close c w ∷ [])))
  first_sent : Pair c v w (
      going (record {
        running = (closes c ∷ []) ∷ send_and_close c w ∷ [];
        closed = false;
        takers = 0;
        taken = v ∷ [];
      }))
  first_closed : Pair c v w (
      going (record {
        running = [] ∷ send_and_close c w ∷ [];
        closed = true;
        takers = 0;
        taken = v ∷ [];
      }))
  second_sent : Pair c v w (
      going (record {
        running = send_and_close c v ∷ (closes c ∷ []) ∷ [];
        closed = false;
        takers = 0;
        taken = w ∷ [];
      }))
  second_closed : Pair c v w (
      going (record {
        running = send_and_close c v ∷ [] ∷ [];
        closed = true;
        takers = 0;
        taken = w ∷ [];
      }))
  has_crashed : Pair c v w crashed

turn-Pair :
    (c : ℕ) (v w : Response) {o : Outcome} (i n : ℕ)
    → Pair c v w o
    → Pair c v w (run ((i, n) ∷ []) o)
unfolding run turn
turn-Pair c v w zero zero both_wait = first_sent
turn-Pair c v w zero (suc n) both_wait = first_sent
turn-Pair c v w (suc zero) zero both_wait = second_sent
turn-Pair c v w (suc zero) (suc n) both_wait = second_sent
turn-Pair c v w (suc (suc i)) n both_wait = both_wait
turn-Pair c v w zero n first_sent = first_closed
turn-Pair c v w (suc zero) n first_sent = first_sent
turn-Pair c v w (suc (suc i)) n first_sent = first_sent
turn-Pair c v w zero n first_closed = first_closed
turn-Pair c v w (suc zero) n first_closed = has_crashed
turn-Pair c v w (suc (suc i)) n first_closed = first_closed
turn-Pair c v w zero n second_sent = second_sent
turn-Pair c v w (suc zero) n second_sent = second_closed
turn-Pair c v w (suc (suc i)) n second_sent = second_sent
turn-Pair c v w zero n second_closed = has_crashed
turn-Pair c v w (suc zero) n second_closed = second_closed
turn-Pair c v w (suc (suc i)) n second_closed = second_closed
turn-Pair c v w i n has_crashed = has_crashed

run-Pair :
    (c : ℕ) (v w : Response) (es : List (ℕ × ℕ)) {o : Outcome}
    → Pair c v w o
    → Pair c v w (run es o)
unfolding run
run-Pair c v w [] p = p
run-Pair c v w ((i, n) ∷ es) {o} p =
    subst (Pair c v w) (sym (run-append ((i, n) ∷ []) es o))
      (run-Pair c v w es (turn-Pair c v w i n p))

-- Two turns of each goroutine crash the program from any of these states.
Pair-crashed :
    (c : ℕ) (v w : Response) {o : Outcome}
    → Pair c v w o
    → run ((0, 0) ∷ (0, 0) ∷ (1, 0) ∷ (1, 0) ∷ (0, 0) ∷ []) o ≡ crashed
unfolding run turn
Pair-crashed c v w both_wait = refl
Pair-crashed c v w first_sent = refl
Pair-crashed c v w first_closed = refl
Pair-crashed c v w second_sent = refl
Pair-crashed c v w second_closed = refl
Pair-crashed c v w has_crashed = refl

-- Where two goroutines each send a value on one channel and close it, with one caller that waits, the
-- program has crashed once any schedule is followed by two more turns of the first, two of the second
-- and one of the first.
pub run-two :
    (c : ℕ) (v w : Response) (es : List (ℕ × ℕ))
    → run
        (es ++ (0, 0) ∷ (0, 0) ∷ (1, 0) ∷ (1, 0) ∷ (0, 0) ∷ [])
        (going (awaiting (send_and_close c v ∷ send_and_close c w ∷ [])))
      ≡ crashed
run-two c v w es =
    run-append es ((0, 0) ∷ (0, 0) ∷ (1, 0) ∷ (1, 0) ∷ (0, 0) ∷ [])
      (going (awaiting (send_and_close c v ∷ send_and_close c w ∷ [])))
    ∙ Pair-crashed c v w (run-Pair c v w es both_wait)

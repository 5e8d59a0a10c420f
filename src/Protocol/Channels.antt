-- ===== src/Protocol/Channels.antt =====
-- A channel without a buffer, the goroutines that send on it and close it, and callers that receive
-- from it, after Go's specification: a send waits for a receiver; a send on a closed channel and the
-- close of a closed channel panic. Goroutines take turns in any order.
pub mod Replies
use Prim.Native.Nat.{pred}
use komandgo.Base.{
  ℕ, zero, suc, ◌≡◌, refl, Bool, true, false, List, [], ◌∷◌, ◌++◌, Option, none, some, get_elem?,
  set, ◌==◌, if◌then◌else◌,
}
use komandgo.Protocol.Response.{Response, Action, sends, closes, Goroutine}

-- `takers` callers wait for a value, and `taken` has been received.
pub record Channel : Type 0 where
  pub running : List Goroutine
  pub closed : Bool
  pub takers : ℕ
  pub taken : List Response

pub data Outcome : Type 0 where
  going : Channel → Outcome
  crashed : Outcome

-- The value that is sent: one of those that the variable has.
abbrev pick : ℕ → List Response → List Response
pick n [] = []
pick n (v ∷ vs) = elim (get_elem? (v ∷ vs) n) [ none ↦ v ∷ [] | some w ↦ w ∷ [] ]

abbrev act : ℕ → ℕ → Goroutine → Channel → Outcome
act i n [] ch = going ch
act i n (sends c vs ∷ rest) ch =
    if ch.closed
    then crashed
    else if ch.takers == 0
    then going ch
    else going (record ch {
      running = set ch.running i rest;
      takers = pred ch.takers;
      taken = ch.taken ++ pick n vs;
    })
act i n (closes c ∷ rest) ch =
    if ch.closed
    then crashed
    else going (record ch { running = set ch.running i rest; closed = true })

-- Goroutine `i` gets a turn; one that must wait, or has ended, changes nothing.
unfoldable pub turn : ℕ → ℕ → Channel → Outcome
turn i n ch = elim (get_elem? ch.running i) [ none ↦ going ch | some g ↦ act i n g ch ]

-- A turn for each entry: which goroutine, and which of the values its variable has then.
unfoldable pub run : List (ℕ × ℕ) → Outcome → Outcome
run [] o = o
run (e ∷ es) crashed = crashed
run ((i, n) ∷ es) (going ch) = run es (turn i n ch)

-- One caller waits on an open channel for these goroutines.
abbrev pub awaiting : List Goroutine → Channel
awaiting gs = record { running = gs; closed = false; takers = 1; taken = [] }

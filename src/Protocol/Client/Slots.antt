-- ===== src/Protocol/Client/Slots.antt =====
-- The promise of the map of waiting requests, whatever goroutines call it in whatever order: a row of
-- slots, one for each request in the order of registration, each emptied by the first response to it.
use komandgo.Base.{
  ℕ, zero, suc, ◌+◌, ◌%◌, ◌^◌, ◌≤◌, ◌<◌, ◌≡◌, refl, List, [], ◌∷◌, ◌++◌, Option, none, some,
  Option-cases, inl, inr, ap, arith, length, length-append, set, ◌==◌, if◌then◌else◌,
}
use komandgo.Io.{Writer}
use komandgo.Protocol.Server.{KomServer}
use komandgo.Protocol.Client.{
  Callback, KomClient, lookup, register_callback, get_callback, new_client,
}
use komandgo.Protocol.Client.Pending.{lookup-insert, lookup-delete}

-- A call of one of the two operations, and what the caller sees of it.
pub data Call : Type 0 where
  registers : Callback → Call
  answers : ℕ → Call

pub data Seen : Type 0 where
  request : ℕ → Seen
  callback : Option Callback → Seen

-- The operations of the code.
unfoldable pub code_step : Call → KomClient → Seen × KomClient
code_step (registers c) k = let (id, k') = register_callback c k in (request id, k')
code_step (answers id) k = let (c, _, k') = get_callback id k in (callback c, k')

unfoldable pub code_run : List Call → KomClient → List Seen
unfolding code_step
code_run [] k = []
code_run (c ∷ cs) k = (code_step c k).0 ∷ code_run cs (code_step c k).1

-- The operations of the promise.
abbrev pub Slots : Type 0
Slots = List (Option Callback)

abbrev pub slot : Slots → ℕ → Option Callback
slot [] j = none
slot (x ∷ xs) zero = x
slot (x ∷ xs) (suc j) = slot xs j

abbrev pub slot_step : Call → Slots → Seen × Slots
slot_step (registers c) xs = (request (length xs), xs ++ some c ∷ [])
slot_step (answers id) xs = (callback (slot xs id), set xs id none)

abbrev pub slot_run : List Call → Slots → List Seen
slot_run [] xs = []
slot_run (c ∷ cs) xs = (slot_step c xs).0 ∷ slot_run cs (slot_step c xs).1

-- How many requests a history registers.
abbrev pub registrations : List Call → ℕ
registrations [] = 0
registrations (registers c ∷ cs) = suc (registrations cs)
registrations (answers id ∷ cs) = registrations cs

slot-append :
    (xs : Slots) (c : Option Callback) (j : ℕ)
    → slot (xs ++ c ∷ []) j ≡ (if length xs == j then c else slot xs j)
slot-append [] c zero = refl
slot-append [] c (suc j) = ground arith
slot-append (x ∷ xs) c zero = ground arith
slot-append (x ∷ xs) c (suc j) = ground (arith, slot-append xs c j)

slot-set : (xs : Slots) (i j : ℕ) → slot (set xs i none) j ≡ (if i == j then none else slot xs j)
slot-set [] i j = ground arith
slot-set (x ∷ xs) zero zero = refl
slot-set (x ∷ xs) zero (suc j) = ground arith
slot-set (x ∷ xs) (suc i) zero = ground arith
slot-set (x ∷ xs) (suc i) (suc j) = ground (arith, slot-set xs i j)

length-set-none : (xs : Slots) (i : ℕ) → length (set xs i none) ≡ length xs
length-set-none [] i = refl
length-set-none (x ∷ xs) zero = refl
length-set-none (x ∷ xs) (suc i) = ap suc (length-set-none xs i)

-- The client holds what the slots hold.
record Matches (k : KomClient) (xs : Slots) : Type 0 where
  counter : k.next_request ≡ length xs % 2 ^ 32
  holds : (j : ℕ) → lookup j k.async_map ≡ slot xs j

registers-Matches :
    (c : Callback) (k : KomClient) (xs : Slots)
    → Matches k xs
    → length xs < 2 ^ 32
    → ((register_callback c k).0 ≡ length xs)
      × Matches (register_callback c k).1 (xs ++ some c ∷ [])
unfolding register_callback
registers-Matches c k xs m h =
    let e : k.next_request ≡ length xs = omega (arith, m.counter) in
    (
      e,
      record {
        counter = omega (arith, e, length-append xs (some c ∷ []));
        holds = λ j. ground (
          arith,
          e,
          lookup-insert j k.next_request c k.async_map,
          slot-append xs (some c) j,
          m.holds j,
        );
      },
    )

answers-Matches :
    (id : ℕ) (k : KomClient) (xs : Slots)
    → Matches k xs
    → ((get_callback id k).0 ≡ slot xs id) × Matches (get_callback id k).2 (set xs id none)
unfolding get_callback
answers-Matches id k xs m = elim (Option-cases (lookup id k.async_map)) [
  | inl e ↦
      rw (e, get_callback)
        (
          ground (arith, e, m.holds id),
          record {
            counter = omega (arith, m.counter, length-set-none xs id);
            holds = λ j. ground (arith, e, m.holds id, m.holds j, slot-set xs id j);
          },
        )
  | inr (c, e) ↦
      rw (e, get_callback)
        (
          ground (arith, e, m.holds id),
          record {
            counter = omega (arith, m.counter, length-set-none xs id);
            holds =
                λ j. ground (arith, lookup-delete j id k.async_map, m.holds j, slot-set xs id j);
          },
        )
]

code_run-slot_run :
    (cs : List Call) (k : KomClient) (xs : Slots)
    → Matches k xs
    → length xs + registrations cs ≤ 2 ^ 32
    → code_run cs k ≡ slot_run cs xs
unfolding code_run
code_run-slot_run [] k xs m h = refl
code_run-slot_run (registers c ∷ cs) k xs m h =
    let (e, m') = registers-Matches c k xs m (omega arith) in
    let rest =
      code_run-slot_run cs (register_callback c k).1 (xs ++ some c ∷ []) m'
        (omega (arith, length-append xs (some c ∷ []))) in
    λ i. request (e i) ∷ rest i
code_run-slot_run (answers id ∷ cs) k xs m h =
    let (e, m') = answers-Matches id k xs m in
    let rest =
      code_run-slot_run cs (get_callback id k).2 (set xs id none) m'
        (omega (arith, length-set-none xs id)) in
    λ i. callback (e i) ∷ rest i

-- A new client and a row of slots, through any history of `registerCallback` and `getCallback` with
-- at most 2^32 registrations, show the same: the requests are numbered 0, 1, 2 and so on, and a
-- number gives out the callback that was registered under it, the first time it is asked for and
-- never again. Other numbers give nil.
pub code_run-slots :
    (cs : List Call) (s : KomServer) (w : Writer)
    → registrations cs ≤ 2 ^ 32
    → code_run cs (new_client s w) ≡ slot_run cs []
unfolding lookup
code_run-slots cs s w h =
    code_run-slot_run cs (new_client s w) [] (record { counter = refl; holds = λ j. refl })
      (omega arith)

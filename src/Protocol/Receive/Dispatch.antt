-- ===== src/Protocol/Receive/Dispatch.antt =====
-- What a round of the read loop makes of a response, of one that nobody waits for, and of the end of
-- the input.
use komandgo.Base.{
  ℕ, zero, suc, ◌^◌, ◌<◌, ◌≡◌, refl, ◌≢◌, Bool, List, [], ◌∷◌, ◌++◌, none, some, arith, ◌∙◌, ap,
  ==_refl, ◌==◌, if◌then◌else◌, append-nil, Option-cases, inl, inr,
}
use komandgo.Fmt.{format_decimal}
use komandgo.Io.{Read, byte, Reader, reader, feed}
use komandgo.Protocol.Client.{Callback, KomClient, delete, get_callback}
use komandgo.Protocol.Client.Pending.{waiting, lookup-delete}
use komandgo.Protocol.Handlers.Replies.{channel_of, error_in, TellsErrors, call_error-Refuses}
use komandgo.Protocol.Input.{read_uint32}
use komandgo.Protocol.Input.Numbers.{by_byte, read_uint32-format}
use komandgo.Protocol.Receive.{
  State, Event, round, receive_loop, call, dispatch, after_round, receive_round,
}
use komandgo.Protocol.Response.{Response, Goroutine, send_and_close}
use komandgo.Utils.{read_byte}

-- A response: its status, its request number, a blank, and the rest.
abbrev pub response : ℕ → ℕ → List Read → List Read
response status id rest = byte status ∷ feed (format_decimal id) (byte b' ' ∷ rest)

-- The client once the callback of a request has been given out.
abbrev pub without : ℕ → KomClient → KomClient
without id k = record k { async_map = delete id k.async_map }

abbrev pub before : KomClient → Bool → List Read → List Goroutine → State
before k q xs gs = record { client = k; input = reader q xs; started = gs }

read_response :
    (id : ℕ) (q : Bool) (rest : List Read)
    → id < 2 ^ 32
    → read_uint32 (reader q (feed (format_decimal id) (byte b' ' ∷ rest))) ≡ (id, reader q rest)
read_response id q rest h =
    read_uint32-format id q (by_byte b' ' rest (omega arith))
    ∙ ap (λ n. (n, reader q rest)) (omega (arith, h))

get_callback-some :
    (id : ℕ) (k : KomClient) (c : Callback)
    → waiting k id ≡ some c
    → get_callback id k ≡ (some c, none, without id k)
unfolding get_callback
get_callback-some id k c h = rw (h, get_callback) refl

get_callback-none :
    (id : ℕ) (k : KomClient)
    → waiting k id ≡ none
    → ((get_callback id k).0 ≡ none) × ((get_callback id k).2 ≡ k)
unfolding get_callback
get_callback-none id k h = (rw (h, get_callback) refl, rw (h, get_callback) refl)

receive_round-response :
    (k : KomClient) (q : Bool) (status id : ℕ) (rest : List Read) (gs : List Goroutine)
    → id < 2 ^ 32
    → receive_round (before k q (response status id rest) gs)
      ≡ after_round
          (before k q (response status id rest) gs)
          (get_callback id k).2
          (dispatch status (get_callback id k).0 (reader q rest))
unfolding receive_round read_byte
receive_round-response k q status id rest gs h = rw (read_response id q rest h) refl

waiting_once : (id : ℕ) (k : KomClient) → waiting (without id k) id ≡ none
waiting_once id k =
    lookup-delete id id k.async_map ∙ ap (λ b. if b then none else waiting k id) (==_refl id)

-- A response of status `%` with the number of a request, other than one of `asyncGetTime`: the round
-- starts one goroutine, which sends a response with an error on the channel of the callback and closes
-- it, and forgets the request.
pub receive_round-error :
    (k : KomClient) (q : Bool) (id : ℕ) (rest : List Read) (gs : List Goroutine) (c : Callback)
    → id < 2 ^ 32
    → waiting k id ≡ some c
    → TellsErrors c
    → (v : Response) × (r : Reader) × (error_in v ≢ none)
      × (receive_round (before k q (response b'%' id rest) gs)
          ≡ some (record {
            client = without id k;
            input = r;
            started = gs ++ send_and_close (channel_of c) v ∷ [];
          }))
      × (waiting (without id k) id ≡ none)
unfolding dispatch call
receive_round-error k q id rest gs c h w n =
    let (v, r, e, told) = call_error-Refuses c (reader q rest) n in
    (
      v,
      r,
      told,
      receive_round-response k q b'%' id rest gs h
          ∙ rw (get_callback-some id k c w)
              (ap (after_round (before k q (response b'%' id rest) gs) (without id k)) e),
      waiting_once id k,
    )

-- A response of status `=` or `%` whose number no request has panics: the callback is nil.
pub receive_round-unknown :
    (k : KomClient) (q : Bool) (id : ℕ) (rest : List Read) (gs : List Goroutine)
    → id < 2 ^ 32
    → waiting k id ≡ none
    → (receive_round (before k q (response b'=' id rest) gs) ≡ none)
      × (receive_round (before k q (response b'%' id rest) gs) ≡ none)
unfolding dispatch call
receive_round-unknown k q id rest gs h w =
    let (nil, _) = get_callback-none id k w in
    (
      receive_round-response k q b'=' id rest gs h ∙ rw nil refl,
      receive_round-response k q b'%' id rest gs h ∙ rw nil refl,
    )

receive_round_at_eof :
    (k : KomClient) (q : Bool) (gs : List Goroutine)
    → receive_round (before k q [] gs) ≡ some (before (get_callback 0 k).2 q [] gs)
unfolding receive_round read_byte dispatch read_uint32
receive_round_at_eof k q gs = ap (λ xs. some (before (get_callback 0 k).2 q [] xs)) (append-nil gs)

receive_loop-round :
    (es : List Event) (s s' : State)
    → receive_round s ≡ some s'
    → receive_loop (round ∷ es) s ≡ receive_loop es s'
unfolding receive_loop
receive_loop-round es s s' e = rw (e, receive_loop) refl

-- `n` rounds, with no registration between them.
abbrev pub rounds_only : ℕ → List Event
rounds_only zero = []
rounds_only (suc n) = round ∷ rounds_only n

get_callback_twice :
    (id : ℕ) (k : KomClient) → (get_callback id (get_callback id k).2).2 ≡ (get_callback id k).2
get_callback_twice id k = elim (Option-cases (waiting k id)) [
  | inl e ↦ let (_, same) = get_callback-none id k e in rw (same, same) refl
  | inr (c, e) ↦
      let left = ap (λ x. x.2) (get_callback-some id k c e) in
      rw left ((get_callback-none id (without id k) (waiting_once id k)).1)
]

waiting-get_callback :
    (id j : ℕ) (k : KomClient)
    → waiting (get_callback id k).2 j ≡ (if id == j then none else waiting k j)
waiting-get_callback id j k = elim (Option-cases (waiting k id)) [
  | inl e ↦ ground (arith, e, (get_callback-none id k e).1)
  | inr (c, e) ↦ rw (get_callback-some id k c e) (lookup-delete j id k.async_map)
]

-- At the end of the input the loop goes on and on: any number of rounds starts nothing and tells
-- nobody. The callback of request 0, if there is one, is dropped, since the number reads as 0; no other
-- request is touched.
pub receive_loop_at_eof :
    (k : KomClient) (q : Bool) (gs : List Goroutine) (n j : ℕ)
    → (receive_loop (rounds_only (suc n)) (before k q [] gs)
        ≡ some (before (get_callback 0 k).2 q [] gs))
      × (waiting (get_callback 0 k).2 j ≡ (if 0 == j then none else waiting k j))
unfolding receive_loop
receive_loop_at_eof k q gs zero j =
    (receive_loop-round [] _ _ (receive_round_at_eof k q gs), waiting-get_callback 0 j k)
receive_loop_at_eof k q gs (suc n) j = (
  receive_loop-round (rounds_only (suc n)) _ _ (receive_round_at_eof k q gs)
      ∙ (receive_loop_at_eof (get_callback 0 k).2 q gs n j).0
      ∙ ap (λ k'. some (before k' q [] gs)) (get_callback_twice 0 k),
  waiting-get_callback 0 j k,
)

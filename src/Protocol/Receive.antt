-- ===== src/Protocol/Receive.antt =====
-- pkg/protocol/client.go: the read loop. Other goroutines register requests meanwhile; a registration
-- in the middle of a round counts as one before it, since a round touches the map only once.
pub mod Dispatch
use komandgo.Base.{
  ℕ, zero, suc, ◌≡◌, refl, Bool, true, false, List, [], ◌∷◌, ◌++◌, Option, none, some, Bytes, codes,
  ◌==◌, if◌then◌else◌,
}
use komandgo.Io.{Reader, reader, feed}
use komandgo.Protocol.Client.{Callback, KomClient, register_callback, get_callback}
use komandgo.Protocol.Handlers.{call_ok, call_error}
use komandgo.Protocol.Input.{read_uint32}
use komandgo.Protocol.Response.{Goroutine, Handled}
use komandgo.Utils.{read_byte}

-- The client, its input, and the goroutines started so far.
pub record State : Type 0 where
  pub client : KomClient
  pub input : Reader
  pub started : List Goroutine

-- A call of a method of a callback, which panics if the callback is nil.
unfoldable pub call : (Callback → Reader → Handled) → Option Callback → Reader → Handled
call method none r = none
call method (some c) r = method c r

-- The `switch` on the status.
unfoldable pub dispatch : ℕ → Option Callback → Reader → Handled
unfolding call
dispatch status callback r =
    if status == b'='
    then call call_ok callback r
    else if status == b'%'
    then call call_error callback r
    else some ([], r)

abbrev after_round : State → KomClient → Handled → Option State
after_round s k none = none
after_round s k (some (gs, r)) = some (record { client = k; input = r; started = s.started ++ gs })

-- A round of the loop behind the `default` of its `select`: errors of the reads are not looked at.
unfoldable pub receive_round : State → Option State
receive_round s =
    let (status, _, r1) = read_byte s.input in
    let (id, r2) = read_uint32 r1 in
    let (callback, _, k) = get_callback id s.client in after_round s k (dispatch status callback r2)

-- What happens next: the loop makes a round, or a request is registered.
pub data Event : Type 0 where
  round : Event
  registers : Callback → Event

-- `receiveLoop` until the shutdown, which ends the list. `none` is a panic.
unfoldable pub receive_loop : List Event → State → Option State
receive_loop [] s = some s
receive_loop (round ∷ es) s = elim (receive_round s) [ none ↦ none | some s' ↦ receive_loop es s' ]
receive_loop (registers c ∷ es) s =
    receive_loop es (record s { client = (register_callback c s.client).1 })

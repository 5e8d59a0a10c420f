-- ===== src/Protocol/Client.antt =====
-- pkg/protocol/client.go: the state of a client, the requests that wait for a response, and sending.
-- `mapLock` is held over the whole bodies of `registerCallback` and `getCallback`, so each is one step.
pub mod Pending
pub mod Slots
pub mod Sending
use mathlib.Core.Option
use komandgo.Base.{
  ℕ, zero, suc, ◌+◌, ◌-◌, ◌%◌, ◌^◌, ◌≡◌, refl, Bool, true, false, List, [], ◌∷◌, ◌++◌, Option, none,
  some, Bytes, codes, length, drop, leb, ◌==◌, if◌then◌else◌,
}
use komandgo.Io.{GoError, unknown_request, Wrote, takes, breaks, Writer, writer, write, broken}
use komandgo.Protocol.Server.{KomServer, new_server, lookup_user, lookup_conference}

-- The callback types, each with the number of its channel.
pub data Callback : Type 0 where
  generic : ℕ → Callback
  get_marks : ℕ → Callback
  get_text : ℕ → Callback
  z_conf_array : ℕ → Callback
  version_info : ℕ → Callback
  get_time : ℕ → Callback
  person_stat : ℕ → Callback
  unread_confs : ℕ → Callback
  who_am_i : ℕ → Callback
  text_number : ℕ → Callback
  string_value : ℕ → Callback
  u_conf : ℕ → Callback
  query_async : ℕ → Callback

-- `asyncMap`, a Go map: it has a key once.
abbrev pub Pending : Type 0
Pending = List (ℕ × Callback)

unfoldable pub lookup : ℕ → Pending → Option Callback
lookup id [] = none
lookup id ((j, c) ∷ m) = if j == id then some c else lookup id m

-- `m[id] = c`
unfoldable pub insert : ℕ → Callback → Pending → Pending
insert id c [] = (id, c) ∷ []
insert id c ((j, d) ∷ m) = if j == id then (id, c) ∷ m else (j, d) ∷ insert id c m

-- `delete(m, id)`
unfoldable pub delete : ℕ → Pending → Pending
delete id [] = []
delete id ((j, d) ∷ m) = if j == id then delete id m else (j, d) ∷ delete id m

-- `next_channel` numbers the channels that `make` has given out.
pub record KomClient : Type 0 where
  pub async_map : Pending
  pub next_request : ℕ
  pub server : KomServer
  pub socket : Writer
  pub next_channel : ℕ

-- `registerCallback`: the request number, and the client. The counter is a `uint32`.
unfoldable pub register_callback : Callback → KomClient → ℕ × KomClient
register_callback c k = (
  k.next_request,
  record k {
    next_request = (k.next_request + 1) % 2 ^ 32;
    async_map = insert k.next_request c k.async_map;
  },
)

-- `getCallback`: the callback is nil where the request is not known.
unfoldable pub get_callback : ℕ → KomClient → Option Callback × Option GoError × KomClient
get_callback id k = elim (lookup id k.async_map) [
  | none ↦ (none, some (unknown_request id), k)
  | some c ↦ (some c, none, record k { async_map = delete id k.async_map })
]

-- The loop of `send` over the bytes that remain: what it comes to, or `none` where the rounds run out.
unfoldable pub send_loop : ℕ → Bytes → Writer → Option (Option GoError × Writer)
send_loop zero b w = none
send_loop (suc fuel) b w =
    let (sent, err, w') = write w b in
    let more = send_loop fuel (drop sent b) w' in
    elim err [
      | some e ↦ some (some e, w')
      | none ↦ if leb (length b) sent then some (none, w') else more
    ]

-- The newline behind a line, written with no look at the result.
end_line : Option GoError × Writer → Option GoError × Writer
end_line (some e, w) = (some e, w)
end_line (none, w) = let (_, _, w') = write w (10 ∷ []) in (none, w')

-- `send` on the socket; `none` where it never returns. A round takes one of the listed outcomes or
-- leaves fewer bytes, or it changes nothing and so will all that follow.
unfoldable pub send_line : Bytes → Writer → Option (Option GoError × Writer)
unfolding send_loop end_line
send_line s w = Option.map end_line (send_loop (suc (length w.outcomes + length s)) s w)

-- `send`
unfoldable pub send : Bytes → KomClient → Option (Option GoError × KomClient)
unfolding send_line
send s k = Option.map (λ (err, w). (err, record k { socket = w })) (send_line s k.socket)

-- `PersonFromName`
unfoldable pub person_from_name : KomClient → Bytes → ℕ
unfolding lookup_user
person_from_name k user = elim (lookup_user k.server user) [ some n ↦ n | none ↦ 0 ]

-- `ConferenceFromName`
unfoldable pub conference_from_name : KomClient → Bytes → ℕ
unfolding lookup_user lookup_conference
conference_from_name k name = elim (lookup_user k.server name) [
  | some n ↦ n
  | none ↦ elim (lookup_conference k.server name) [ some n ↦ n | none ↦ 0 ]
]

-- The client that `internalNewClient` makes, once `net.Dial` has given the socket.
abbrev pub new_client : KomServer → Writer → KomClient
new_client s w = record {
  async_map = [];
  next_request = 0;
  server = s;
  socket = w;
  next_channel = 0;
}

send_runs :
    send_line (codes "1 2") (writer (takes 1 ∷ []) []) ≡ some (none, writer [] (codes "1 2\n"))
unfolding send_line send_loop end_line write
send_runs = refl

send_fails :
    send_line (codes "1 2") (writer (takes 1 ∷ breaks 1 7 ∷ []) [])
    ≡ some (some (broken 7), writer [] (codes "1 "))
unfolding send_line send_loop end_line write
send_fails = refl

send_stalls :
    send_line (codes "1 2") (record { outcomes = takes 1 ∷ []; behind = takes 0; wire = [] }) ≡ none
unfolding send_line send_loop end_line write
send_stalls = refl

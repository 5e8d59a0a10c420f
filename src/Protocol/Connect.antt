-- ===== src/Protocol/Connect.antt =====
-- pkg/protocol/client.go and server.go: making clients and servers. `net.Dial` is not in this
-- repository: its outcomes are a list, one for each call, and the names that were dialled are kept.
pub mod Dialling
use komandgo.Base.{ℕ, ◌≡◌, refl, List, [], ◌∷◌, ◌++◌, Option, none, some, Bytes, ◌⊎◌, inl, inr}
use komandgo.Io.{GoError, Writer, writer}
use komandgo.Protocol.Client.{KomClient, new_client}
use komandgo.Protocol.Server.{KomServer, NameMap, find_name, new_server}

-- A call of `net.Dial`: a socket or an error. When the list has ended, a socket that takes all.
pub data Dialled : Type 0 where
  connected : Writer → Dialled
  refused : GoError → Dialled

-- `serverMap`, and the network.
pub record World : Type 0 where
  pub server_map : NameMap KomServer
  pub outcomes : List Dialled
  pub dialled : List Bytes

abbrev next_outcome : List Dialled → Dialled × List Dialled
next_outcome [] = (connected (writer [] []), [])
next_outcome (d ∷ ds) = (d, ds)

unfoldable pub dial : Bytes → World → Dialled × World
dial name w =
    let (d, ds) = next_outcome w.outcomes in
    (d, record w { outcomes = ds; dialled = w.dialled ++ name ∷ [] })

abbrev connect : KomServer → Dialled → KomClient ⊎ GoError
connect server (connected socket) = inl (new_client server socket)
connect server (refused e) = inr e

-- `internalNewClient`: the client, or the error.
unfoldable pub internal_new_client : Bytes → KomServer → World → (KomClient ⊎ GoError) × World
internal_new_client name server w = let (d, w1) = dial name w in (connect server d, w1)

abbrev unless_failed : KomServer → KomClient ⊎ GoError → KomServer ⊎ GoError
unless_failed s (inl client) = inl s
unless_failed s (inr e) = inr e

-- `GetServer`: the server is not put into the map.
unfoldable pub get_server : Bytes → World → (KomServer ⊎ GoError) × World
get_server name w = elim (find_name name w.server_map) [
  | some s ↦ (inl s, w)
  | none ↦
      let (made, w1) = internal_new_client name new_server w in (unless_failed new_server made, w1)
]

abbrev with_server : Bytes → KomServer ⊎ GoError → World → (KomClient ⊎ GoError) × World
with_server name (inl server) w = internal_new_client name server w
with_server name (inr e) w = (inr e, w)

-- `NewKomClient`
unfoldable pub new_kom_client : Bytes → World → (KomClient ⊎ GoError) × World
new_kom_client name w = let (found, w1) = get_server name w in with_server name found w1

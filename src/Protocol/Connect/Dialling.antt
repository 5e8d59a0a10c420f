-- ===== src/Protocol/Connect/Dialling.antt =====
-- How often a client dials, and what it shares.
use komandgo.Base.{◌≡◌, refl, List, [], ◌∷◌, ◌++◌, none, Bytes, inl, inr, append_assoc, ap}
use komandgo.Io.{GoError, Writer}
use komandgo.Protocol.Client.{new_client}
use komandgo.Protocol.Connect.{
  Dialled, connected, refused, World, dial, internal_new_client, get_server, new_kom_client,
}
use komandgo.Protocol.Server.{KomServer, NameMap, find_name, new_server}

abbrev pub world : NameMap KomServer → List Dialled → List Bytes → World
world m ds names = record { server_map = m; outcomes = ds; dialled = names }

module _ (name : Bytes) (m : NameMap KomServer) (ds : List Dialled) (names : List Bytes)
    (h : find_name name m ≡ none) where
  get_server-connected :
      (first : Writer)
      → get_server name (world m (connected first ∷ ds) names)
        ≡ (inl new_server, world m ds (names ++ name ∷ []))
  unfolding get_server internal_new_client dial
  get_server-connected first = rw (h, get_server) refl

  get_server-refused :
      (e : GoError)
      → get_server name (world m (refused e ∷ ds) names) ≡ (inr e, world m ds (names ++ name ∷ []))
  unfolding get_server internal_new_client dial
  get_server-refused e = rw (h, get_server) refl

-- Where the map has no server of this name, `NewKomClient` dials twice. The first connection, which
-- `GetServer` makes, is not in the client; the client has the second one and a server without names;
-- the map is left as it was, so the next client of the same name starts all over. An error of either
-- call is returned, and after an error of the first there is no second.
pub new_kom_client_lem :
    (name : Bytes) (m : NameMap KomServer) (ds : List Dialled) (names : List Bytes)
    (first second : Writer) (e : GoError)
    → find_name name m ≡ none
    → (new_kom_client name (world m (connected first ∷ connected second ∷ ds) names)
        ≡ (inl (new_client new_server second), world m ds (names ++ name ∷ name ∷ [])))
      × (new_kom_client name (world m (connected first ∷ refused e ∷ ds) names)
          ≡ (inr e, world m ds (names ++ name ∷ name ∷ [])))
      × (new_kom_client name (world m (refused e ∷ ds) names)
          ≡ (inr e, world m ds (names ++ name ∷ [])))
unfolding new_kom_client internal_new_client dial
new_kom_client_lem name m ds names first second e h = (
  rw (get_server-connected name m (connected second ∷ ds) names h first) (
      ap (λ ns. (inl (new_client new_server second), world m ds ns))
        (append_assoc names (name ∷ []) (name ∷ []))),
  rw (get_server-connected name m (refused e ∷ ds) names h first)
      (ap (λ ns. (inr e, world m ds ns)) (append_assoc names (name ∷ []) (name ∷ []))),
  rw (get_server-refused name m ds names h e) refl,
)

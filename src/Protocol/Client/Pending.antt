-- ===== src/Protocol/Client/Pending.antt =====
-- Laws of the map of waiting requests, and what the two operations on it do.
use komandgo.Base.{ℕ, ◌≡◌, refl, ◌≢◌, [], ◌∷◌, Option, none, some, arith, ◌==◌, if◌then◌else◌}
use komandgo.Io.{unknown_request}
use komandgo.Protocol.Client.{
  Callback, Pending, KomClient, lookup, insert, delete, register_callback, get_callback,
}

pub lookup-insert :
    (j id : ℕ) (c : Callback) (m : Pending)
    → lookup j (insert id c m) ≡ (if id == j then some c else lookup j m)
unfolding lookup insert
lookup-insert j id c [] = refl
lookup-insert j id c ((i, d) ∷ m) = ground (arith, lookup-insert j id c m)

pub lookup-delete :
    (j id : ℕ) (m : Pending) → lookup j (delete id m) ≡ (if id == j then none else lookup j m)
unfolding lookup delete
lookup-delete j id [] = ground arith
lookup-delete j id ((i, d) ∷ m) = ground (arith, lookup-delete j id m)

-- What the client knows of a request number.
abbrev pub waiting : KomClient → ℕ → Option Callback
waiting k id = lookup id k.async_map

-- A registered callback is given out for its number, once, and the second time the number is
-- unknown. No other number is touched by the registration or by giving the callback out.
pub get-register :
    (c : Callback) (k : KomClient) (j : ℕ)
    → let (id, k1) = register_callback c k in
      let (found, err, k2) = get_callback id k1 in
      (found ≡ some c)
      × (err ≡ none)
      × ((get_callback id k2).0 ≡ none)
      × ((get_callback id k2).1 ≡ some (unknown_request id))
      × (id ≢ j → (waiting k1 j ≡ waiting k j) × (waiting k2 j ≡ waiting k j))
unfolding register_callback get_callback
get-register c k j =
    let n = k.next_request in
    let m = insert n c k.async_map in
    ground (
      arith,
      lookup-insert n n c k.async_map,
      lookup-insert j n c k.async_map,
      lookup-delete n n m,
      lookup-delete j n m,
    )

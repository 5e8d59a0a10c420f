-- ===== src/Protocol/Server.antt =====
-- pkg/protocol/server.go: what the clients of one server share. A lock is held over the whole body
-- of each method, so a method is one step. The field `client`, which nothing reads, is left out.
use komandgo.Base.{
  ℕ, Bool, true, false, ◌&&◌, List, [], ◌∷◌, Option, none, some, Bytes, ◌==◌, if◌then◌else◌,
}

-- `==` of two strings.
unfoldable pub same_bytes : Bytes → Bytes → Bool
same_bytes [] [] = true
same_bytes (c ∷ s) (d ∷ t) = c == d && same_bytes s t
same_bytes _ _ = false

-- A Go map with strings for its keys.
abbrev pub NameMap : Type 0 → Type 0
NameMap A = List (Bytes × A)

unfoldable pub find_name {ℓ} : {A : Type ℓ} → Bytes → List (Bytes × A) → Option A
unfolding same_bytes
find_name k [] = none
find_name k ((j, v) ∷ m) = if same_bytes j k then some v else find_name k m

pub record KomServer : Type 0 where
  pub user_name_map : NameMap ℕ
  pub conference_map : NameMap ℕ

unfoldable pub lookup_user : KomServer → Bytes → Option ℕ
unfolding find_name
lookup_user ks user = find_name user ks.user_name_map

unfoldable pub lookup_conference : KomServer → Bytes → Option ℕ
unfolding find_name
lookup_conference ks user = find_name user ks.conference_map

-- A server as `GetServer` makes it: no names, and nothing in this package puts a name in.
abbrev pub new_server : KomServer
new_server = record { user_name_map = []; conference_map = [] }

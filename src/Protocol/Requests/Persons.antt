-- ===== src/Protocol/Requests/Persons.antt =====
-- pkg/protocol/client.go: the requests about persons.
use komandgo.Base.{ℕ, [], ◌∷◌, Bytes}
use komandgo.Hollerith.{text, number, sprint}
use komandgo.Protocol.Client.{KomClient, generic, person_stat, unread_confs}
use komandgo.Protocol.Requests.{Issued, issue}
use komandgo.Types.Flags.{PrivBits, priv_repr}

-- `asyncSetPrivBits`
unfoldable pub async_set_priv_bits : ℕ → PrivBits → KomClient → Issued
async_set_priv_bits person priv_bits k =
    issue generic 7 (number person ∷ text (priv_repr priv_bits) ∷ []) k

-- `asyncChangePassword`
unfoldable pub async_change_password : ℕ → Bytes → Bytes → KomClient → Issued
async_change_password person old_passwd new_passwd k =
    issue generic 8
      (number person ∷ text (sprint (text old_passwd)) ∷ text (sprint (text new_passwd)) ∷ []) k

-- `asyncGetPersonStat`
unfoldable pub async_get_person_stat : ℕ → KomClient → Issued
async_get_person_stat person k = issue person_stat 49 (number person ∷ []) k

-- `asyncGetUnreadConfs`
unfoldable pub async_get_unread_confs : ℕ → KomClient → Issued
async_get_unread_confs person k = issue unread_confs 52 (number person ∷ []) k

-- `asyncSetUserArea`
unfoldable pub async_set_user_area : ℕ → ℕ → KomClient → Issued
async_set_user_area who text_no k = issue generic 57 (number who ∷ number text_no ∷ []) k

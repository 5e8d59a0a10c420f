-- ===== src/Protocol/Requests/Sessions.antt =====
-- pkg/protocol/client.go: the requests about sessions, the server, messages and the client.
use komandgo.Base.{ℕ, List, [], ◌∷◌, Bytes, Bool, if◌then◌else◌}
use komandgo.Hollerith.{text, number, sprint}
use komandgo.Protocol.Client.{
  KomClient, person_from_name, generic, get_time, query_async, string_value, version_info, who_am_i,
}
use komandgo.Protocol.Requests.{Issued, issue}
use komandgo.Types.Arrays.{uint32_array}
use komandgo.Types.Records.{InfoOld}

-- `asyncLogout`
unfoldable pub async_logout : KomClient → Issued
async_logout k = issue generic 1 [] k

-- `asyncChangeWhatIAmDoing`
unfoldable pub async_change_what_i_am_doing : Bytes → KomClient → Issued
async_change_what_i_am_doing msg k = issue generic 4 (text (sprint (text msg)) ∷ []) k

-- `asyncGetTime`
unfoldable pub async_get_time : KomClient → Issued
async_get_time k = issue get_time 35 [] k

-- `asyncSetMOTDOfLysKom`
unfoldable pub async_set_motd_of_lys_kom : ℕ → KomClient → Issued
async_set_motd_of_lys_kom text_no k = issue generic 41 (number text_no ∷ []) k

-- `asyncEnable`
unfoldable pub async_enable : ℕ → KomClient → Issued
async_enable level k = issue generic 42 (number level ∷ []) k

-- `asyncSyncKom`
unfoldable pub async_sync_kom : KomClient → Issued
async_sync_kom k = issue generic 43 [] k

-- `asyncShutdownKom`
unfoldable pub async_shutdown_kom : ℕ → KomClient → Issued
async_shutdown_kom e_val k = issue generic 44 (number e_val ∷ []) k

-- `asyncSendMessage`
unfoldable pub async_send_message : ℕ → Bytes → KomClient → Issued
async_send_message recipient message k =
    issue generic 53 (number recipient ∷ text (sprint (text message)) ∷ []) k

-- `asyncDisconnect`
unfoldable pub async_disconnect : ℕ → KomClient → Issued
async_disconnect session k = issue generic 55 (number session ∷ []) k

-- `asyncWhoAmI`
unfoldable pub async_who_am_i : KomClient → Issued
async_who_am_i k = issue who_am_i 56 [] k

-- `asyncLogin`
unfoldable pub async_login : Bytes → Bytes → Bool → KomClient → Issued
async_login user_name password invisible k =
    issue generic 62
      (number (person_from_name k user_name)
        ∷ text (sprint (text password))
        ∷ number (if invisible then 1 else 0)
        ∷ [])
      k

-- `asyncSetClientVersion`
unfoldable pub async_set_client_version : Bytes → Bytes → KomClient → Issued
async_set_client_version name version k =
    issue generic 69 (text (sprint (text name)) ∷ text (sprint (text version)) ∷ []) k

-- `asyncGetClientName`
unfoldable pub async_get_client_name : ℕ → KomClient → Issued
async_get_client_name session k = issue string_value 70 (number session ∷ []) k

-- `asyncGetClientVersion`
unfoldable pub async_get_client_version : ℕ → KomClient → Issued
async_get_client_version session k = issue string_value 71 (number session ∷ []) k

-- `asyncGetVersionInfo`
unfoldable pub async_get_version_info : KomClient → Issued
async_get_version_info k = issue version_info 75 [] k

-- `asyncSetInfo`
unfoldable pub async_set_info : InfoOld → KomClient → Issued
async_set_info info k =
    issue generic 79
      (number info.version
        ∷ number info.conference_presentation_conference
        ∷ number info.person_presentation_conference
        ∷ number info.motd_conference
        ∷ number info.kom_news_conference
        ∷ number info.motd_of_lyskom
        ∷ [])
      k

-- `asyncAcceptAsync`
unfoldable pub async_accept_async : List ℕ → KomClient → Issued
async_accept_async msgs k = issue generic 80 (text (uint32_array msgs) ∷ []) k

-- `asyncQueryAsync`
unfoldable pub async_query_async : KomClient → Issued
async_query_async k = issue query_async 81 [] k

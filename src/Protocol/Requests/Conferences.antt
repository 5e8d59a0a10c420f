-- ===== src/Protocol/Requests/Conferences.antt =====
-- pkg/protocol/client.go: the requests about conferences.
use komandgo.Base.{ℕ, List, [], ◌∷◌, Bytes, Bool, if◌then◌else◌}
use komandgo.Hollerith.{text, number, sprint}
use komandgo.Protocol.Client.{
  KomClient, conference_from_name, person_from_name, generic, u_conf, z_conf_array,
}
use komandgo.Protocol.Requests.{Issued, issue}
use komandgo.Types.Arrays.{text_no_array}
use komandgo.Types.Flags.{AnyConfType, bit_field}

-- `asyncChangeConferece`
unfoldable pub async_change_conferece : Bytes → KomClient → Issued
async_change_conferece new_conf k =
    issue generic 2 (number (conference_from_name k new_conf) ∷ []) k

-- `asyncChangeName`
unfoldable pub async_change_name : Bytes → Bytes → KomClient → Issued
async_change_name conference new_name k =
    issue generic 3
      (number (conference_from_name k conference) ∷ text (sprint (text new_name)) ∷ []) k

-- `asyncDeleteConference`
unfoldable pub async_delete_conference : Bytes → KomClient → Issued
async_delete_conference conference_name k =
    issue generic 11 (number (conference_from_name k conference_name) ∷ []) k

-- `asyncSubMember`
unfoldable pub async_sub_member : Bytes → Bytes → KomClient → Issued
async_sub_member person conference k =
    issue generic 15
      (number (conference_from_name k conference) ∷ number (person_from_name k person) ∷ []) k

-- `asyncSetPresentation`
unfoldable pub async_set_presentation : Bytes → ℕ → KomClient → Issued
async_set_presentation conference text_no k =
    issue generic 16 (number (conference_from_name k conference) ∷ number text_no ∷ []) k

-- `asyncSetEtcMotd`
unfoldable pub async_set_etc_motd : Bytes → ℕ → KomClient → Issued
async_set_etc_motd conference text_no k =
    issue generic 17 (number (conference_from_name k conference) ∷ number text_no ∷ []) k

-- `asyncSetSupervisor`
unfoldable pub async_set_supervisor : Bytes → Bytes → KomClient → Issued
async_set_supervisor conference admin k =
    issue generic 18
      (number (conference_from_name k conference) ∷ number (conference_from_name k conference) ∷ [])
      k

-- `asyncSetPermitterSubmitters`
unfoldable pub async_set_permitter_submitters : Bytes → Bytes → KomClient → Issued
async_set_permitter_submitters conference permitted k =
    issue generic 19
      (number (conference_from_name k conference) ∷ number (conference_from_name k conference) ∷ [])
      k

-- `asyncSetSuperConf`
unfoldable pub async_set_super_conf : Bytes → Bytes → KomClient → Issued
async_set_super_conf conference permitted k =
    issue generic 20
      (number (conference_from_name k conference) ∷ number (conference_from_name k conference) ∷ [])
      k

-- `asyncSetConfTypef`
unfoldable pub async_set_conf_typef : Bytes → AnyConfType → KomClient → Issued
async_set_conf_typef conference conf_type k =
    issue generic 21 (number (conference_from_name k conference) ∷ text (bit_field conf_type) ∷ [])
      k

-- `asyncSetGarbNice`
unfoldable pub async_set_garb_nice : Bytes → ℕ → KomClient → Issued
async_set_garb_nice conference nice k =
    issue generic 22 (number (conference_from_name k conference) ∷ number nice ∷ []) k

-- `asyncMarkAsRead`
unfoldable pub async_mark_as_read : Bytes → List ℕ → KomClient → Issued
async_mark_as_read conference texts k =
    issue generic 27 (number (conference_from_name k conference) ∷ text (text_no_array texts) ∷ [])
      k

-- `asyncSetUnread`
unfoldable pub async_set_unread : Bytes → ℕ → KomClient → Issued
async_set_unread conference unread k =
    issue generic 40 (number (conference_from_name k conference) ∷ number unread ∷ []) k

-- `asyncReZLookup`
unfoldable pub async_re_z_lookup : Bytes → Bool → Bool → KomClient → Issued
async_re_z_lookup re want_persons want_conferences k =
    issue z_conf_array 74
      (text (sprint (text re))
        ∷ number (if want_persons then 1 else 0)
        ∷ number (if want_conferences then 1 else 0)
        ∷ [])
      k

-- `asyncLookupZName`
unfoldable pub async_lookup_z_name : Bytes → Bool → Bool → KomClient → Issued
async_lookup_z_name name want_conferences want_persons k =
    issue z_conf_array 76
      (text (sprint (text name))
        ∷ number (if want_persons then 1 else 0)
        ∷ number (if want_conferences then 1 else 0)
        ∷ [])
      k

-- `asyncSetLastRead`
unfoldable pub async_set_last_read : ℕ → ℕ → KomClient → Issued
async_set_last_read conf text_no k = issue generic 77 (number conf ∷ number text_no ∷ []) k

-- `asyncGetUConfStat`
unfoldable pub async_get_u_conf_stat : ℕ → KomClient → Issued
async_get_u_conf_stat conf k = issue u_conf 78 (number conf ∷ []) k

-- ===== src/Protocol/Requests/Calls.antt =====
-- pkg/protocol/client.go: the requests as data, and the method that makes each.
use komandgo.Base.{ℕ, List, Bool, Bytes}
use komandgo.Protocol.Client.{KomClient, Callback}
use komandgo.Protocol.Client
use komandgo.Protocol.Requests.{Issued}
use komandgo.Protocol.Requests.Sessions.{
  async_logout, async_change_what_i_am_doing, async_get_time, async_set_motd_of_lys_kom,
  async_enable, async_sync_kom, async_shutdown_kom, async_send_message, async_disconnect,
  async_who_am_i, async_login, async_set_client_version, async_get_client_name,
  async_get_client_version, async_get_version_info, async_set_info, async_accept_async,
  async_query_async,
}
use komandgo.Protocol.Requests.Conferences.{
  async_change_conferece, async_change_name, async_delete_conference, async_sub_member,
  async_set_presentation, async_set_etc_motd, async_set_supervisor, async_set_permitter_submitters,
  async_set_super_conf, async_set_conf_typef, async_set_garb_nice, async_mark_as_read,
  async_set_unread, async_re_z_lookup, async_lookup_z_name, async_set_last_read,
  async_get_u_conf_stat,
}
use komandgo.Protocol.Requests.Persons.{
  async_set_priv_bits, async_change_password, async_get_person_stat, async_get_unread_confs,
  async_set_user_area,
}
use komandgo.Protocol.Requests.Texts.{
  async_get_marks, async_get_text, async_delete_text, async_add_recipient, async_sub_recipient,
  async_add_comment, async_sub_comment, async_add_footnote, async_sub_footnote, async_get_last_text,
  async_find_next_text_no, async_find_previous_text_no, async_mark_text, async_unmark_text,
}
use komandgo.Types.Flags.{PrivBits, AnyConfType}
use komandgo.Types.Records.{InfoType, InfoOld}
use komandgo.Types.Time.{Civil}

-- A method with its arguments.
pub data Request : Type 0 where
  ask_logout : Request
  ask_change_conferece : Bytes → Request
  ask_change_name : Bytes → Bytes → Request
  ask_change_what_i_am_doing : Bytes → Request
  ask_set_priv_bits : ℕ → PrivBits → Request
  ask_change_password : ℕ → Bytes → Bytes → Request
  ask_delete_conference : Bytes → Request
  ask_sub_member : Bytes → Bytes → Request
  ask_set_presentation : Bytes → ℕ → Request
  ask_set_etc_motd : Bytes → ℕ → Request
  ask_set_supervisor : Bytes → Bytes → Request
  ask_set_permitter_submitters : Bytes → Bytes → Request
  ask_set_super_conf : Bytes → Bytes → Request
  ask_set_conf_typef : Bytes → AnyConfType → Request
  ask_set_garb_nice : Bytes → ℕ → Request
  ask_get_marks : Request
  ask_get_text : ℕ → ℕ → ℕ → Request
  ask_mark_as_read : Bytes → List ℕ → Request
  ask_delete_text : ℕ → Request
  ask_add_recipient : ℕ → Bytes → InfoType → Request
  ask_sub_recipient : ℕ → Bytes → Request
  ask_add_comment : ℕ → ℕ → Request
  ask_sub_comment : ℕ → ℕ → Request
  ask_get_time : Request
  ask_add_footnote : ℕ → ℕ → Request
  ask_sub_footnote : ℕ → ℕ → Request
  ask_set_unread : Bytes → ℕ → Request
  ask_set_motd_of_lys_kom : ℕ → Request
  ask_enable : ℕ → Request
  ask_sync_kom : Request
  ask_shutdown_kom : ℕ → Request
  ask_get_person_stat : ℕ → Request
  ask_get_unread_confs : ℕ → Request
  ask_send_message : ℕ → Bytes → Request
  ask_disconnect : ℕ → Request
  ask_who_am_i : Request
  ask_set_user_area : ℕ → ℕ → Request
  ask_get_last_text : Civil → Request
  ask_find_next_text_no : ℕ → Request
  ask_find_previous_text_no : ℕ → Request
  ask_login : Bytes → Bytes → Bool → Request
  ask_set_client_version : Bytes → Bytes → Request
  ask_get_client_name : ℕ → Request
  ask_get_client_version : ℕ → Request
  ask_mark_text : ℕ → ℕ → Request
  ask_unmark_text : ℕ → Request
  ask_re_z_lookup : Bytes → Bool → Bool → Request
  ask_get_version_info : Request
  ask_lookup_z_name : Bytes → Bool → Bool → Request
  ask_set_last_read : ℕ → ℕ → Request
  ask_get_u_conf_stat : ℕ → Request
  ask_set_info : InfoOld → Request
  ask_accept_async : List ℕ → Request
  ask_query_async : Request

-- The call of the method.
unfoldable pub call_request : Request → KomClient → Issued
call_request ask_logout k = async_logout k
call_request (ask_change_conferece new_conf) k = async_change_conferece new_conf k
call_request (ask_change_name conference new_name) k = async_change_name conference new_name k
call_request (ask_change_what_i_am_doing msg) k = async_change_what_i_am_doing msg k
call_request (ask_set_priv_bits person priv_bits) k = async_set_priv_bits person priv_bits k
call_request (ask_change_password person old_passwd new_passwd) k =
    async_change_password person old_passwd new_passwd k
call_request (ask_delete_conference conference_name) k = async_delete_conference conference_name k
call_request (ask_sub_member person conference) k = async_sub_member person conference k
call_request (ask_set_presentation conference text_no) k =
    async_set_presentation conference text_no k
call_request (ask_set_etc_motd conference text_no) k = async_set_etc_motd conference text_no k
call_request (ask_set_supervisor conference admin) k = async_set_supervisor conference admin k
call_request (ask_set_permitter_submitters conference permitted) k =
    async_set_permitter_submitters conference permitted k
call_request (ask_set_super_conf conference permitted) k =
    async_set_super_conf conference permitted k
call_request (ask_set_conf_typef conference conf_type) k =
    async_set_conf_typef conference conf_type k
call_request (ask_set_garb_nice conference nice) k = async_set_garb_nice conference nice k
call_request ask_get_marks k = async_get_marks k
call_request (ask_get_text text_no start end) k = async_get_text text_no start end k
call_request (ask_mark_as_read conference texts) k = async_mark_as_read conference texts k
call_request (ask_delete_text text_no) k = async_delete_text text_no k
call_request (ask_add_recipient text_no conference recipient_type) k =
    async_add_recipient text_no conference recipient_type k
call_request (ask_sub_recipient text_no conference) k = async_sub_recipient text_no conference k
call_request (ask_add_comment text_no comment_to) k = async_add_comment text_no comment_to k
call_request (ask_sub_comment text_no comment_to) k = async_sub_comment text_no comment_to k
call_request ask_get_time k = async_get_time k
call_request (ask_add_footnote text_no footnote_to) k = async_add_footnote text_no footnote_to k
call_request (ask_sub_footnote text_no footnote_to) k = async_sub_footnote text_no footnote_to k
call_request (ask_set_unread conference unread) k = async_set_unread conference unread k
call_request (ask_set_motd_of_lys_kom text_no) k = async_set_motd_of_lys_kom text_no k
call_request (ask_enable level) k = async_enable level k
call_request ask_sync_kom k = async_sync_kom k
call_request (ask_shutdown_kom e_val) k = async_shutdown_kom e_val k
call_request (ask_get_person_stat person) k = async_get_person_stat person k
call_request (ask_get_unread_confs person) k = async_get_unread_confs person k
call_request (ask_send_message recipient message) k = async_send_message recipient message k
call_request (ask_disconnect session) k = async_disconnect session k
call_request ask_who_am_i k = async_who_am_i k
call_request (ask_set_user_area who text_no) k = async_set_user_area who text_no k
call_request (ask_get_last_text when) k = async_get_last_text when k
call_request (ask_find_next_text_no text_no) k = async_find_next_text_no text_no k
call_request (ask_find_previous_text_no text_no) k = async_find_previous_text_no text_no k
call_request (ask_login user_name password invisible) k = async_login user_name password invisible k
call_request (ask_set_client_version name version) k = async_set_client_version name version k
call_request (ask_get_client_name session) k = async_get_client_name session k
call_request (ask_get_client_version session) k = async_get_client_version session k
call_request (ask_mark_text text_no mark) k = async_mark_text text_no mark k
call_request (ask_unmark_text text_no) k = async_unmark_text text_no k
call_request (ask_re_z_lookup re want_persons want_conferences) k =
    async_re_z_lookup re want_persons want_conferences k
call_request ask_get_version_info k = async_get_version_info k
call_request (ask_lookup_z_name name want_conferences want_persons) k =
    async_lookup_z_name name want_conferences want_persons k
call_request (ask_set_last_read conf text_no) k = async_set_last_read conf text_no k
call_request (ask_get_u_conf_stat conf) k = async_get_u_conf_stat conf k
call_request (ask_set_info info) k = async_set_info info k
call_request (ask_accept_async msgs) k = async_accept_async msgs k
call_request ask_query_async k = async_query_async k

-- The callback that it registers.
abbrev pub callback_of : Request → ℕ → Callback
callback_of ask_get_marks = Client.get_marks
callback_of (ask_get_text _ _ _) = Client.get_text
callback_of ask_get_time = Client.get_time
callback_of (ask_get_person_stat _) = Client.person_stat
callback_of (ask_get_unread_confs _) = Client.unread_confs
callback_of ask_who_am_i = Client.who_am_i
callback_of (ask_get_last_text _) = Client.text_number
callback_of (ask_find_next_text_no _) = Client.text_number
callback_of (ask_find_previous_text_no _) = Client.text_number
callback_of (ask_get_client_name _) = Client.string_value
callback_of (ask_get_client_version _) = Client.string_value
callback_of (ask_re_z_lookup _ _ _) = Client.z_conf_array
callback_of ask_get_version_info = Client.version_info
callback_of (ask_lookup_z_name _ _ _) = Client.z_conf_array
callback_of (ask_get_u_conf_stat _) = Client.u_conf
callback_of ask_query_async = Client.query_async
callback_of _ = Client.generic

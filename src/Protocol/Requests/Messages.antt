-- ===== src/Protocol/Requests/Messages.antt =====
-- What Protocol A has a request say: the number of the message and its arguments, after the
-- comments of pkg/protocol/client.go and the names of the parameters.
use komandgo.Base.{ℕ, ◌≡◌, refl, List, [], ◌∷◌, map, Bytes, if◌then◌else◌}
use komandgo.Hollerith.{Operand, text, number, sprint}
use komandgo.Protocol.Client.{KomClient, conference_from_name, person_from_name}
use komandgo.Protocol.Requests.{issue}
use komandgo.Protocol.Requests.Calls.{
  Request, call_request, callback_of, ask_logout, ask_change_conferece, ask_change_name,
  ask_change_what_i_am_doing, ask_set_priv_bits, ask_change_password, ask_delete_conference,
  ask_sub_member, ask_set_presentation, ask_set_etc_motd, ask_set_supervisor,
  ask_set_permitter_submitters, ask_set_super_conf, ask_set_conf_typef, ask_set_garb_nice,
  ask_get_marks, ask_get_text, ask_mark_as_read, ask_delete_text, ask_add_recipient,
  ask_sub_recipient, ask_add_comment, ask_sub_comment, ask_get_time, ask_add_footnote,
  ask_sub_footnote, ask_set_unread, ask_set_motd_of_lys_kom, ask_enable, ask_sync_kom,
  ask_shutdown_kom, ask_get_person_stat, ask_get_unread_confs, ask_send_message, ask_disconnect,
  ask_who_am_i, ask_set_user_area, ask_get_last_text, ask_find_next_text_no,
  ask_find_previous_text_no, ask_login, ask_set_client_version, ask_get_client_name,
  ask_get_client_version, ask_mark_text, ask_unmark_text, ask_re_z_lookup, ask_get_version_info,
  ask_lookup_z_name, ask_set_last_read, ask_get_u_conf_stat, ask_set_info, ask_accept_async,
  ask_query_async,
}
use komandgo.Protocol.Requests.Sessions.{
  async_logout, async_change_what_i_am_doing, async_get_time, async_set_motd_of_lys_kom,
  async_enable, async_sync_kom, async_shutdown_kom, async_send_message, async_disconnect,
  async_who_am_i, async_login, async_set_client_version, async_get_client_name,
  async_get_client_version, async_get_version_info, async_set_info, async_accept_async,
  async_query_async,
}
use komandgo.Protocol.Requests.Conferences.{
  async_change_conferece, async_change_name, async_delete_conference, async_sub_member,
  async_set_presentation, async_set_etc_motd, async_set_supervisor, async_set_permitter_submitters,
  async_set_super_conf, async_set_conf_typef, async_set_garb_nice, async_mark_as_read,
  async_set_unread, async_re_z_lookup, async_lookup_z_name, async_set_last_read,
  async_get_u_conf_stat,
}
use komandgo.Protocol.Requests.Persons.{
  async_set_priv_bits, async_change_password, async_get_person_stat, async_get_unread_confs,
  async_set_user_area,
}
use komandgo.Protocol.Requests.Texts.{
  async_get_marks, async_get_text, async_delete_text, async_add_recipient, async_sub_recipient,
  async_add_comment, async_sub_comment, async_add_footnote, async_sub_footnote, async_get_last_text,
  async_find_next_text_no, async_find_previous_text_no, async_mark_text, async_unmark_text,
}
use komandgo.Types.Arrays.{uint32_array, text_no_array}
use komandgo.Types.Flags.{priv_repr, bit_field}
use komandgo.Types.Records.{info_code}
use komandgo.Types.Time.{Civil, string_time}

-- An argument: a number, a string, a row of bits, an array of numbers, or a time.
pub data Argument : Type 0 where
  whole : ℕ → Argument
  counted : Bytes → Argument
  bits : Bytes → Argument
  numbers : List ℕ → Argument
  moment : Civil → Argument

-- How it is written.
abbrev pub operand : Argument → Operand
operand (whole n) = number n
operand (counted s) = text (sprint (text s))
operand (bits b) = text b
operand (numbers ns) = text (uint32_array ns)
operand (moment t) = text (string_time t)

-- The number of the message and its arguments. Names stand for what the client resolves them to.
abbrev pub protocol_message : KomClient → Request → ℕ × List Argument
protocol_message k ask_logout = (1, [])
protocol_message k (ask_change_conferece new_conf) =
    (2, whole (conference_from_name k new_conf) ∷ [])
protocol_message k (ask_change_name conference new_name) =
    (3, whole (conference_from_name k conference) ∷ counted new_name ∷ [])
protocol_message k (ask_change_what_i_am_doing msg) = (4, counted msg ∷ [])
protocol_message k (ask_set_priv_bits person priv_bits) =
    (7, whole person ∷ bits (priv_repr priv_bits) ∷ [])
protocol_message k (ask_change_password person old_passwd new_passwd) =
    (8, whole person ∷ counted old_passwd ∷ counted new_passwd ∷ [])
protocol_message k (ask_delete_conference conference_name) =
    (11, whole (conference_from_name k conference_name) ∷ [])
protocol_message k (ask_sub_member person conference) =
    (15, whole (conference_from_name k conference) ∷ whole (person_from_name k person) ∷ [])
protocol_message k (ask_set_presentation conference text_no) =
    (16, whole (conference_from_name k conference) ∷ whole text_no ∷ [])
protocol_message k (ask_set_etc_motd conference text_no) =
    (17, whole (conference_from_name k conference) ∷ whole text_no ∷ [])
protocol_message k (ask_set_supervisor conference admin) =
    (18, whole (conference_from_name k conference) ∷ whole (conference_from_name k admin) ∷ [])
protocol_message k (ask_set_permitter_submitters conference permitted) =
    (19, whole (conference_from_name k conference) ∷ whole (conference_from_name k permitted) ∷ [])
protocol_message k (ask_set_super_conf conference permitted) =
    (20, whole (conference_from_name k conference) ∷ whole (conference_from_name k permitted) ∷ [])
protocol_message k (ask_set_conf_typef conference conf_type) =
    (21, whole (conference_from_name k conference) ∷ bits (bit_field conf_type) ∷ [])
protocol_message k (ask_set_garb_nice conference nice) =
    (22, whole (conference_from_name k conference) ∷ whole nice ∷ [])
protocol_message k ask_get_marks = (23, [])
protocol_message k (ask_get_text text_no start end) =
    (25, whole text_no ∷ whole start ∷ whole end ∷ [])
protocol_message k (ask_mark_as_read conference texts) =
    (27, whole (conference_from_name k conference) ∷ numbers texts ∷ [])
protocol_message k (ask_delete_text text_no) = (29, whole text_no ∷ [])
protocol_message k (ask_add_recipient text_no conference recipient_type) = (
  30,
  whole text_no ∷ whole (conference_from_name k conference) ∷ whole (info_code recipient_type) ∷ [],
)
protocol_message k (ask_sub_recipient text_no conference) =
    (31, whole text_no ∷ whole (conference_from_name k conference) ∷ [])
protocol_message k (ask_add_comment text_no comment_to) =
    (32, whole text_no ∷ whole comment_to ∷ [])
protocol_message k (ask_sub_comment text_no comment_to) =
    (33, whole text_no ∷ whole comment_to ∷ [])
protocol_message k ask_get_time = (35, [])
protocol_message k (ask_add_footnote text_no footnote_to) =
    (37, whole text_no ∷ whole footnote_to ∷ [])
protocol_message k (ask_sub_footnote text_no footnote_to) =
    (38, whole text_no ∷ whole footnote_to ∷ [])
protocol_message k (ask_set_unread conference unread) =
    (40, whole (conference_from_name k conference) ∷ whole unread ∷ [])
protocol_message k (ask_set_motd_of_lys_kom text_no) = (41, whole text_no ∷ [])
protocol_message k (ask_enable level) = (42, whole level ∷ [])
protocol_message k ask_sync_kom = (43, [])
protocol_message k (ask_shutdown_kom e_val) = (44, whole e_val ∷ [])
protocol_message k (ask_get_person_stat person) = (49, whole person ∷ [])
protocol_message k (ask_get_unread_confs person) = (52, whole person ∷ [])
protocol_message k (ask_send_message recipient message) =
    (53, whole recipient ∷ counted message ∷ [])
protocol_message k (ask_disconnect session) = (55, whole session ∷ [])
protocol_message k ask_who_am_i = (56, [])
protocol_message k (ask_set_user_area who text_no) = (57, whole who ∷ whole text_no ∷ [])
protocol_message k (ask_get_last_text when) = (58, moment when ∷ [])
protocol_message k (ask_find_next_text_no text_no) = (60, whole text_no ∷ [])
protocol_message k (ask_find_previous_text_no text_no) = (61, whole text_no ∷ [])
protocol_message k (ask_login user_name password invisible) = (
  62,
  whole (person_from_name k user_name) ∷ counted password ∷ whole (if invisible then 1 else 0) ∷ [],
)
protocol_message k (ask_set_client_version name version) = (69, counted name ∷ counted version ∷ [])
protocol_message k (ask_get_client_name session) = (70, whole session ∷ [])
protocol_message k (ask_get_client_version session) = (71, whole session ∷ [])
protocol_message k (ask_mark_text text_no mark) = (72, whole text_no ∷ whole mark ∷ [])
protocol_message k (ask_unmark_text text_no) = (73, whole text_no ∷ [])
protocol_message k (ask_re_z_lookup re want_persons want_conferences) = (
  74,
  counted re
      ∷ whole (if want_persons then 1 else 0)
      ∷ whole (if want_conferences then 1 else 0)
      ∷ [],
)
protocol_message k ask_get_version_info = (75, [])
protocol_message k (ask_lookup_z_name name want_conferences want_persons) = (
  76,
  counted name
      ∷ whole (if want_persons then 1 else 0)
      ∷ whole (if want_conferences then 1 else 0)
      ∷ [],
)
protocol_message k (ask_set_last_read conf text_no) = (77, whole conf ∷ whole text_no ∷ [])
protocol_message k (ask_get_u_conf_stat conf) = (78, whole conf ∷ [])
protocol_message k (ask_set_info info) = (
  79,
  whole info.version
      ∷ whole info.conference_presentation_conference
      ∷ whole info.person_presentation_conference
      ∷ whole info.motd_conference
      ∷ whole info.kom_news_conference
      ∷ whole info.motd_of_lyskom
      ∷ [],
)
protocol_message k (ask_accept_async msgs) = (80, numbers msgs ∷ [])
protocol_message k ask_query_async = (81, [])

-- The three methods whose second name is not what they send.
abbrev pub SendsItsNames : Request → Type 0
SendsItsNames (ask_set_supervisor _ _) = ⊥
SendsItsNames (ask_set_permitter_submitters _ _) = ⊥
SendsItsNames (ask_set_super_conf _ _) = ⊥
SendsItsNames _ = Unit

-- A method other than `asyncSetSupervisor`, `asyncSetPermitterSubmitters` and `asyncSetSuperConf`
-- issues the message of Protocol A with its arguments in order and registers its callback.
pub call_request-protocol_message :
    (r : Request) (k : KomClient)
    → SendsItsNames r
    → call_request r k
      ≡ issue (callback_of r) (protocol_message k r).0 (map operand (protocol_message k r).1) k
unfolding call_request text_no_array uint32_array async_logout async_change_conferece
    async_change_name async_change_what_i_am_doing async_set_priv_bits async_change_password
    async_delete_conference async_sub_member async_set_presentation async_set_etc_motd
    async_set_supervisor async_set_permitter_submitters async_set_super_conf async_set_conf_typef
    async_set_garb_nice async_get_marks async_get_text async_mark_as_read async_delete_text
    async_add_recipient async_sub_recipient async_add_comment async_sub_comment async_get_time
    async_add_footnote async_sub_footnote async_set_unread async_set_motd_of_lys_kom async_enable
    async_sync_kom async_shutdown_kom async_get_person_stat async_get_unread_confs
    async_send_message async_disconnect async_who_am_i async_set_user_area async_get_last_text
    async_find_next_text_no async_find_previous_text_no async_login async_set_client_version
    async_get_client_name async_get_client_version async_mark_text async_unmark_text
    async_re_z_lookup async_get_version_info async_lookup_z_name async_set_last_read
    async_get_u_conf_stat async_set_info async_accept_async async_query_async
call_request-protocol_message ask_logout k h = refl
call_request-protocol_message (ask_change_conferece new_conf) k h = refl
call_request-protocol_message (ask_change_name conference new_name) k h = refl
call_request-protocol_message (ask_change_what_i_am_doing msg) k h = refl
call_request-protocol_message (ask_set_priv_bits person priv_bits) k h = refl
call_request-protocol_message (ask_change_password person old_passwd new_passwd) k h = refl
call_request-protocol_message (ask_delete_conference conference_name) k h = refl
call_request-protocol_message (ask_sub_member person conference) k h = refl
call_request-protocol_message (ask_set_presentation conference text_no) k h = refl
call_request-protocol_message (ask_set_etc_motd conference text_no) k h = refl
call_request-protocol_message (ask_set_supervisor conference admin) k h = elim h [ ]
call_request-protocol_message (ask_set_permitter_submitters conference permitted) k h = elim h [ ]
call_request-protocol_message (ask_set_super_conf conference permitted) k h = elim h [ ]
call_request-protocol_message (ask_set_conf_typef conference conf_type) k h = refl
call_request-protocol_message (ask_set_garb_nice conference nice) k h = refl
call_request-protocol_message ask_get_marks k h = refl
call_request-protocol_message (ask_get_text text_no start end) k h = refl
call_request-protocol_message (ask_mark_as_read conference texts) k h = refl
call_request-protocol_message (ask_delete_text text_no) k h = refl
call_request-protocol_message (ask_add_recipient text_no conference recipient_type) k h = refl
call_request-protocol_message (ask_sub_recipient text_no conference) k h = refl
call_request-protocol_message (ask_add_comment text_no comment_to) k h = refl
call_request-protocol_message (ask_sub_comment text_no comment_to) k h = refl
call_request-protocol_message ask_get_time k h = refl
call_request-protocol_message (ask_add_footnote text_no footnote_to) k h = refl
call_request-protocol_message (ask_sub_footnote text_no footnote_to) k h = refl
call_request-protocol_message (ask_set_unread conference unread) k h = refl
call_request-protocol_message (ask_set_motd_of_lys_kom text_no) k h = refl
call_request-protocol_message (ask_enable level) k h = refl
call_request-protocol_message ask_sync_kom k h = refl
call_request-protocol_message (ask_shutdown_kom e_val) k h = refl
call_request-protocol_message (ask_get_person_stat person) k h = refl
call_request-protocol_message (ask_get_unread_confs person) k h = refl
call_request-protocol_message (ask_send_message recipient message) k h = refl
call_request-protocol_message (ask_disconnect session) k h = refl
call_request-protocol_message ask_who_am_i k h = refl
call_request-protocol_message (ask_set_user_area who text_no) k h = refl
call_request-protocol_message (ask_get_last_text when) k h = refl
call_request-protocol_message (ask_find_next_text_no text_no) k h = refl
call_request-protocol_message (ask_find_previous_text_no text_no) k h = refl
call_request-protocol_message (ask_login user_name password invisible) k h = refl
call_request-protocol_message (ask_set_client_version name version) k h = refl
call_request-protocol_message (ask_get_client_name session) k h = refl
call_request-protocol_message (ask_get_client_version session) k h = refl
call_request-protocol_message (ask_mark_text text_no mark) k h = refl
call_request-protocol_message (ask_unmark_text text_no) k h = refl
call_request-protocol_message (ask_re_z_lookup re want_persons want_conferences) k h = refl
call_request-protocol_message ask_get_version_info k h = refl
call_request-protocol_message (ask_lookup_z_name name want_conferences want_persons) k h = refl
call_request-protocol_message (ask_set_last_read conf text_no) k h = refl
call_request-protocol_message (ask_get_u_conf_stat conf) k h = refl
call_request-protocol_message (ask_set_info info) k h = refl
call_request-protocol_message (ask_accept_async msgs) k h = refl
call_request-protocol_message ask_query_async k h = refl

-- A call of one of the three methods that confuse their names, the conference that is its first
-- argument, and the number of the message.
pub data Confused : Request → Bytes → ℕ → Type 0 where
  supervisor :
      (conference admin : Bytes) → Confused (ask_set_supervisor conference admin) conference 18
  submitters :
      (conference permitted : Bytes)
      → Confused (ask_set_permitter_submitters conference permitted) conference 19
  super_conf :
      (conference permitted : Bytes)
      → Confused (ask_set_super_conf conference permitted) conference 20

-- The conference stands in the place of the second name.
pub call_request-Confused :
    (k : KomClient) {r : Request} {conference : Bytes} {opcode : ℕ}
    → Confused r conference opcode
    → call_request r k
      ≡ issue
          (callback_of r)
          opcode
          (map operand (
            whole (conference_from_name k conference)
            ∷ whole (conference_from_name k conference)
            ∷ []))
          k
unfolding call_request async_set_supervisor async_set_permitter_submitters async_set_super_conf
call_request-Confused k (supervisor conference admin) = refl
call_request-Confused k (submitters conference permitted) = refl
call_request-Confused k (super_conf conference permitted) = refl

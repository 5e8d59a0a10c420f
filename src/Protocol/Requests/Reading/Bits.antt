-- ===== src/Protocol/Requests/Reading/Bits.antt =====
-- Rows of bits on the wire: no blank and no newline stands in one, so a server can tell where it ends.
use komandgo.Base.{◌≢◌, [], ◌∷◌, All, arith, Bytes}
use komandgo.Fmt.Scan.{is_binary}
use komandgo.Fmt.Scan.Fields.{Passes}
use komandgo.Protocol.Client.{KomClient}
use komandgo.Protocol.Requests.Calls.{
  Request, ask_logout, ask_change_conferece, ask_change_name, ask_change_what_i_am_doing,
  ask_set_priv_bits, ask_change_password, ask_delete_conference, ask_sub_member,
  ask_set_presentation, ask_set_etc_motd, ask_set_supervisor, ask_set_permitter_submitters,
  ask_set_super_conf, ask_set_conf_typef, ask_set_garb_nice, ask_get_marks, ask_get_text,
  ask_mark_as_read, ask_delete_text, ask_add_recipient, ask_sub_recipient, ask_add_comment,
  ask_sub_comment, ask_get_time, ask_add_footnote, ask_sub_footnote, ask_set_unread,
  ask_set_motd_of_lys_kom, ask_enable, ask_sync_kom, ask_shutdown_kom, ask_get_person_stat,
  ask_get_unread_confs, ask_send_message, ask_disconnect, ask_who_am_i, ask_set_user_area,
  ask_get_last_text, ask_find_next_text_no, ask_find_previous_text_no, ask_login,
  ask_set_client_version, ask_get_client_name, ask_get_client_version, ask_mark_text,
  ask_unmark_text, ask_re_z_lookup, ask_get_version_info, ask_lookup_z_name, ask_set_last_read,
  ask_get_u_conf_stat, ask_set_info, ask_accept_async, ask_query_async,
}
use komandgo.Protocol.Requests.Messages.{Argument, bits, protocol_message}
use komandgo.Types.Flags.{PrivBits, priv_repr, AnyConfType, bit_field}
use komandgo.Types.Flags.Digits.{priv_repr-Passes, bit_field-Passes}

-- No blank and no newline.
abbrev pub Plain : Bytes → Type 0
Plain = All (λ c. (c ≢ b' ') × (c ≢ 10))

abbrev pub Legible : Argument → Type 0
Legible (bits b) = Plain b
Legible _ = Unit

Passes-Plain : (s : Bytes) → Passes is_binary s → Plain s
Passes-Plain [] h = tt
Passes-Plain (c ∷ s) (h, hs) = ((ground (arith, h), ground (arith, h)), Passes-Plain s hs)

priv_repr-Plain : (p : PrivBits) → Plain (priv_repr p)
priv_repr-Plain p = Passes-Plain (priv_repr p) (priv_repr-Passes p)

bit_field-Plain : (t : AnyConfType) → Plain (bit_field t)
bit_field-Plain t = Passes-Plain (bit_field t) (bit_field-Passes t)

-- Every message of the client is legible.
pub protocol_message-Legible : (k : KomClient) (r : Request) → All Legible (protocol_message k r).1
protocol_message-Legible k ask_logout = tt
protocol_message-Legible k (ask_change_conferece new_conf) = (tt, tt)
protocol_message-Legible k (ask_change_name conference new_name) = (tt, (tt, tt))
protocol_message-Legible k (ask_change_what_i_am_doing msg) = (tt, tt)
protocol_message-Legible k (ask_set_priv_bits person priv_bits) =
    (tt, (priv_repr-Plain priv_bits, tt))
protocol_message-Legible k (ask_change_password person old_passwd new_passwd) = (tt, (tt, (tt, tt)))
protocol_message-Legible k (ask_delete_conference conference_name) = (tt, tt)
protocol_message-Legible k (ask_sub_member person conference) = (tt, (tt, tt))
protocol_message-Legible k (ask_set_presentation conference text_no) = (tt, (tt, tt))
protocol_message-Legible k (ask_set_etc_motd conference text_no) = (tt, (tt, tt))
protocol_message-Legible k (ask_set_supervisor conference admin) = (tt, (tt, tt))
protocol_message-Legible k (ask_set_permitter_submitters conference permitted) = (tt, (tt, tt))
protocol_message-Legible k (ask_set_super_conf conference permitted) = (tt, (tt, tt))
protocol_message-Legible k (ask_set_conf_typef conference conf_type) =
    (tt, (bit_field-Plain conf_type, tt))
protocol_message-Legible k (ask_set_garb_nice conference nice) = (tt, (tt, tt))
protocol_message-Legible k ask_get_marks = tt
protocol_message-Legible k (ask_get_text text_no start end) = (tt, (tt, (tt, tt)))
protocol_message-Legible k (ask_mark_as_read conference texts) = (tt, (tt, tt))
protocol_message-Legible k (ask_delete_text text_no) = (tt, tt)
protocol_message-Legible k (ask_add_recipient text_no conference recipient_type) =
    (tt, (tt, (tt, tt)))
protocol_message-Legible k (ask_sub_recipient text_no conference) = (tt, (tt, tt))
protocol_message-Legible k (ask_add_comment text_no comment_to) = (tt, (tt, tt))
protocol_message-Legible k (ask_sub_comment text_no comment_to) = (tt, (tt, tt))
protocol_message-Legible k ask_get_time = tt
protocol_message-Legible k (ask_add_footnote text_no footnote_to) = (tt, (tt, tt))
protocol_message-Legible k (ask_sub_footnote text_no footnote_to) = (tt, (tt, tt))
protocol_message-Legible k (ask_set_unread conference unread) = (tt, (tt, tt))
protocol_message-Legible k (ask_set_motd_of_lys_kom text_no) = (tt, tt)
protocol_message-Legible k (ask_enable level) = (tt, tt)
protocol_message-Legible k ask_sync_kom = tt
protocol_message-Legible k (ask_shutdown_kom e_val) = (tt, tt)
protocol_message-Legible k (ask_get_person_stat person) = (tt, tt)
protocol_message-Legible k (ask_get_unread_confs person) = (tt, tt)
protocol_message-Legible k (ask_send_message recipient message) = (tt, (tt, tt))
protocol_message-Legible k (ask_disconnect session) = (tt, tt)
protocol_message-Legible k ask_who_am_i = tt
protocol_message-Legible k (ask_set_user_area who text_no) = (tt, (tt, tt))
protocol_message-Legible k (ask_get_last_text when) = (tt, tt)
protocol_message-Legible k (ask_find_next_text_no text_no) = (tt, tt)
protocol_message-Legible k (ask_find_previous_text_no text_no) = (tt, tt)
protocol_message-Legible k (ask_login user_name password invisible) = (tt, (tt, (tt, tt)))
protocol_message-Legible k (ask_set_client_version name version) = (tt, (tt, tt))
protocol_message-Legible k (ask_get_client_name session) = (tt, tt)
protocol_message-Legible k (ask_get_client_version session) = (tt, tt)
protocol_message-Legible k (ask_mark_text text_no mark) = (tt, (tt, tt))
protocol_message-Legible k (ask_unmark_text text_no) = (tt, tt)
protocol_message-Legible k (ask_re_z_lookup re want_persons want_conferences) = (tt, (tt, (tt, tt)))
protocol_message-Legible k ask_get_version_info = tt
protocol_message-Legible k (ask_lookup_z_name name want_conferences want_persons) =
    (tt, (tt, (tt, tt)))
protocol_message-Legible k (ask_set_last_read conf text_no) = (tt, (tt, tt))
protocol_message-Legible k (ask_get_u_conf_stat conf) = (tt, tt)
protocol_message-Legible k (ask_set_info info) = (tt, (tt, (tt, (tt, (tt, (tt, tt))))))
protocol_message-Legible k (ask_accept_async msgs) = (tt, tt)
protocol_message-Legible k ask_query_async = tt

-- ===== src/Protocol/Requests/Reading.antt =====
-- A reader of request lines, as a server has one, built from the readers of the packages: what each
-- message of Protocol A takes, and what the lines of the client say to it.
pub mod Bits
pub mod Arguments
use komandgo.Base.{
  ℕ, zero, suc, ◌+◌, ◌<◌, ◌^◌, ◌≡◌, refl, List, [], ◌∷◌, ◌++◌, map, Bool, true, Option, none, some,
  Bytes, All, length, if◌then◌else◌, ◌==◌, arith,
}
use komandgo.Hollerith
use komandgo.Io.{Read, byte, Reader, reader, feed}
use komandgo.Protocol.Client.{KomClient}
use komandgo.Protocol.Input.{read_uint32}
use komandgo.Protocol.Requests.Calls.{
  Request, ask_logout, ask_change_conferece, ask_change_name, ask_change_what_i_am_doing,
  ask_set_priv_bits, ask_change_password, ask_delete_conference, ask_sub_member,
  ask_set_presentation, ask_set_etc_motd, ask_set_supervisor, ask_set_permitter_submitters,
  ask_set_super_conf, ask_set_conf_typef, ask_set_garb_nice, ask_get_marks, ask_get_text,
  ask_mark_as_read, ask_delete_text, ask_add_recipient, ask_sub_recipient, ask_add_comment,
  ask_sub_comment, ask_get_time, ask_add_footnote, ask_sub_footnote, ask_set_unread,
  ask_set_motd_of_lys_kom, ask_enable, ask_sync_kom, ask_shutdown_kom, ask_get_person_stat,
  ask_get_unread_confs, ask_send_message, ask_disconnect, ask_who_am_i, ask_set_user_area,
  ask_get_last_text, ask_find_next_text_no, ask_find_previous_text_no, ask_login,
  ask_set_client_version, ask_get_client_name, ask_get_client_version, ask_mark_text,
  ask_unmark_text, ask_re_z_lookup, ask_get_version_info, ask_lookup_z_name, ask_set_last_read,
  ask_get_u_conf_stat, ask_set_info, ask_accept_async, ask_query_async,
}
use komandgo.Protocol.Requests.Messages.{
  Argument, whole, counted, bits, numbers, moment, protocol_message,
}
use komandgo.Types.Arrays.{read_uint32_array}
use komandgo.Types.Time.{Civil}
use komandgo.Utils.{read_byte}

pub data Kind : Type 0 where
  a_number a_string a_word an_array a_time : Kind

abbrev pub kind_of : Argument → Kind
kind_of (whole _) = a_number
kind_of (counted _) = a_string
kind_of (bits _) = a_word
kind_of (numbers _) = an_array
kind_of (moment _) = a_time

-- The kinds of the arguments of each message.
abbrev shapes : List (ℕ × List Kind)
shapes =
    (1, [])
    ∷ (2, a_number ∷ [])
    ∷ (3, a_number ∷ a_string ∷ [])
    ∷ (4, a_string ∷ [])
    ∷ (7, a_number ∷ a_word ∷ [])
    ∷ (8, a_number ∷ a_string ∷ a_string ∷ [])
    ∷ (11, a_number ∷ [])
    ∷ (15, a_number ∷ a_number ∷ [])
    ∷ (16, a_number ∷ a_number ∷ [])
    ∷ (17, a_number ∷ a_number ∷ [])
    ∷ (18, a_number ∷ a_number ∷ [])
    ∷ (19, a_number ∷ a_number ∷ [])
    ∷ (20, a_number ∷ a_number ∷ [])
    ∷ (21, a_number ∷ a_word ∷ [])
    ∷ (22, a_number ∷ a_number ∷ [])
    ∷ (23, [])
    ∷ (25, a_number ∷ a_number ∷ a_number ∷ [])
    ∷ (27, a_number ∷ an_array ∷ [])
    ∷ (29, a_number ∷ [])
    ∷ (30, a_number ∷ a_number ∷ a_number ∷ [])
    ∷ (31, a_number ∷ a_number ∷ [])
    ∷ (32, a_number ∷ a_number ∷ [])
    ∷ (33, a_number ∷ a_number ∷ [])
    ∷ (35, [])
    ∷ (37, a_number ∷ a_number ∷ [])
    ∷ (38, a_number ∷ a_number ∷ [])
    ∷ (40, a_number ∷ a_number ∷ [])
    ∷ (41, a_number ∷ [])
    ∷ (42, a_number ∷ [])
    ∷ (43, [])
    ∷ (44, a_number ∷ [])
    ∷ (49, a_number ∷ [])
    ∷ (52, a_number ∷ [])
    ∷ (53, a_number ∷ a_string ∷ [])
    ∷ (55, a_number ∷ [])
    ∷ (56, [])
    ∷ (57, a_number ∷ a_number ∷ [])
    ∷ (58, a_time ∷ [])
    ∷ (60, a_number ∷ [])
    ∷ (61, a_number ∷ [])
    ∷ (62, a_number ∷ a_string ∷ a_number ∷ [])
    ∷ (69, a_string ∷ a_string ∷ [])
    ∷ (70, a_number ∷ [])
    ∷ (71, a_number ∷ [])
    ∷ (72, a_number ∷ a_number ∷ [])
    ∷ (73, a_number ∷ [])
    ∷ (74, a_string ∷ a_number ∷ a_number ∷ [])
    ∷ (75, [])
    ∷ (76, a_string ∷ a_number ∷ a_number ∷ [])
    ∷ (77, a_number ∷ a_number ∷ [])
    ∷ (78, a_number ∷ [])
    ∷ (79, a_number ∷ a_number ∷ a_number ∷ a_number ∷ a_number ∷ a_number ∷ [])
    ∷ (80, an_array ∷ [])
    ∷ (81, [])
    ∷ []

find_shape : ℕ → List (ℕ × List Kind) → List Kind
find_shape n [] = []
find_shape n ((m, ks) ∷ rest) = if m == n then ks else find_shape n rest

pub shape : ℕ → List Kind
unfolding find_shape
shape n = find_shape n shapes

-- A word, up to a blank or the end of its line, which is taken too.
unfoldable pub word : List Read → Bytes × List Read
word (byte c ∷ xs) =
    let rest = word xs in
    if c == b' ' then ([], xs) else if c == 10 then ([], xs) else (c ∷ rest.0, rest.1)
word xs = ([], xs)

-- The nine numbers of a time.
unfoldable pub read_moment : Reader → Civil × Reader
read_moment r =
    let (second, r1) = read_uint32 r in
    let (minute, r2) = read_uint32 r1 in
    let (hour, r3) = read_uint32 r2 in
    let (day, r4) = read_uint32 r3 in
    let (month, r5) = read_uint32 r4 in
    let (year, r6) = read_uint32 r5 in
    let (weekday, r7) = read_uint32 r6 in
    let (year_day, r8) = read_uint32 r7 in
    let (dst, r9) = read_uint32 r8 in
    (
      record {
        second = second;
        minute = minute;
        hour = hour;
        day = day;
        month = month + 1;
        year = 1900 + year;
        weekday = weekday;
        year_day = year_day + 1;
        is_dst = dst == 1;
      },
      r9,
    )

-- An argument with the blank or the newline behind it.
unfoldable pub read_argument : Kind → Reader → Argument × Reader
read_argument a_number r = let (n, r1) = read_uint32 r in (whole n, r1)
read_argument a_string r =
    let (s, _, r1) = Hollerith.scan r in let (_, _, r2) = read_byte r1 in (counted s, r2)
read_argument a_word r = let (w, xs) = word r.input in (bits w, record r { input = xs })
read_argument an_array r =
    let (ns, _, r1) = read_uint32_array r in let (_, _, r2) = read_byte r1 in (numbers ns, r2)
read_argument a_time r = let (t, r1) = read_moment r in (moment t, r1)

unfoldable pub read_arguments : List Kind → Reader → List Argument × Reader
read_arguments [] r = ([], r)
read_arguments (k ∷ ks) r =
    let (a, r1) = read_argument k r in let (more, r2) = read_arguments ks r1 in (a ∷ more, r2)

-- A line: the number of the request, that of the message, and its arguments.
unfoldable pub read_request : Reader → ℕ × ℕ × List Argument × Reader
read_request r =
    let (id, r1) = read_uint32 r in
    let (opcode, r2) = read_uint32 r1 in
    let (as_sent, r3) = read_arguments (shape opcode) r2 in (id, opcode, as_sent, r3)

-- The messages of the client have the kinds of arguments that the protocol names.
pub shape-protocol_message :
    (r : Request) (k : KomClient)
    → (shape (protocol_message k r).0 ≡ map kind_of (protocol_message k r).1)
      × ((protocol_message k r).0 < 2 ^ 32)
unfolding shape
shape-protocol_message ask_logout k = (refl, omega arith)
shape-protocol_message (ask_change_conferece new_conf) k = (refl, omega arith)
shape-protocol_message (ask_change_name conference new_name) k = (refl, omega arith)
shape-protocol_message (ask_change_what_i_am_doing msg) k = (refl, omega arith)
shape-protocol_message (ask_set_priv_bits person priv_bits) k = (refl, omega arith)
shape-protocol_message (ask_change_password person old_passwd new_passwd) k = (refl, omega arith)
shape-protocol_message (ask_delete_conference conference_name) k = (refl, omega arith)
shape-protocol_message (ask_sub_member person conference) k = (refl, omega arith)
shape-protocol_message (ask_set_presentation conference text_no) k = (refl, omega arith)
shape-protocol_message (ask_set_etc_motd conference text_no) k = (refl, omega arith)
shape-protocol_message (ask_set_supervisor conference admin) k = (refl, omega arith)
shape-protocol_message (ask_set_permitter_submitters conference permitted) k = (refl, omega arith)
shape-protocol_message (ask_set_super_conf conference permitted) k = (refl, omega arith)
shape-protocol_message (ask_set_conf_typef conference conf_type) k = (refl, omega arith)
shape-protocol_message (ask_set_garb_nice conference nice) k = (refl, omega arith)
shape-protocol_message ask_get_marks k = (refl, omega arith)
shape-protocol_message (ask_get_text text_no start end) k = (refl, omega arith)
shape-protocol_message (ask_mark_as_read conference texts) k = (refl, omega arith)
shape-protocol_message (ask_delete_text text_no) k = (refl, omega arith)
shape-protocol_message (ask_add_recipient text_no conference recipient_type) k = (refl, omega arith)
shape-protocol_message (ask_sub_recipient text_no conference) k = (refl, omega arith)
shape-protocol_message (ask_add_comment text_no comment_to) k = (refl, omega arith)
shape-protocol_message (ask_sub_comment text_no comment_to) k = (refl, omega arith)
shape-protocol_message ask_get_time k = (refl, omega arith)
shape-protocol_message (ask_add_footnote text_no footnote_to) k = (refl, omega arith)
shape-protocol_message (ask_sub_footnote text_no footnote_to) k = (refl, omega arith)
shape-protocol_message (ask_set_unread conference unread) k = (refl, omega arith)
shape-protocol_message (ask_set_motd_of_lys_kom text_no) k = (refl, omega arith)
shape-protocol_message (ask_enable level) k = (refl, omega arith)
shape-protocol_message ask_sync_kom k = (refl, omega arith)
shape-protocol_message (ask_shutdown_kom e_val) k = (refl, omega arith)
shape-protocol_message (ask_get_person_stat person) k = (refl, omega arith)
shape-protocol_message (ask_get_unread_confs person) k = (refl, omega arith)
shape-protocol_message (ask_send_message recipient message) k = (refl, omega arith)
shape-protocol_message (ask_disconnect session) k = (refl, omega arith)
shape-protocol_message ask_who_am_i k = (refl, omega arith)
shape-protocol_message (ask_set_user_area who text_no) k = (refl, omega arith)
shape-protocol_message (ask_get_last_text when) k = (refl, omega arith)
shape-protocol_message (ask_find_next_text_no text_no) k = (refl, omega arith)
shape-protocol_message (ask_find_previous_text_no text_no) k = (refl, omega arith)
shape-protocol_message (ask_login user_name password invisible) k = (refl, omega arith)
shape-protocol_message (ask_set_client_version name version) k = (refl, omega arith)
shape-protocol_message (ask_get_client_name session) k = (refl, omega arith)
shape-protocol_message (ask_get_client_version session) k = (refl, omega arith)
shape-protocol_message (ask_mark_text text_no mark) k = (refl, omega arith)
shape-protocol_message (ask_unmark_text text_no) k = (refl, omega arith)
shape-protocol_message (ask_re_z_lookup re want_persons want_conferences) k = (refl, omega arith)
shape-protocol_message ask_get_version_info k = (refl, omega arith)
shape-protocol_message (ask_lookup_z_name name want_conferences want_persons) k =
    (refl, omega arith)
shape-protocol_message (ask_set_last_read conf text_no) k = (refl, omega arith)
shape-protocol_message (ask_get_u_conf_stat conf) k = (refl, omega arith)
shape-protocol_message (ask_set_info info) k = (refl, omega arith)
shape-protocol_message (ask_accept_async msgs) k = (refl, omega arith)
shape-protocol_message ask_query_async k = (refl, omega arith)

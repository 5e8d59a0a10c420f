-- ===== src/Protocol/Handlers/Success.antt =====
-- pkg/protocol/client.go: the methods `OK` of the callbacks.
use komandgo.Base.{
  Bool, map, if◌then◌else◌, Bytes, ℕ, suc, List, [], ◌∷◌, Option, none, some, length,
}
use komandgo.Hollerith
use komandgo.Io.{GoError, Reader}
use komandgo.Protocol.Input.{
  read_delimited_list, skip_to_newline, read_uint32, read_uint16, read_time,
}
use komandgo.Protocol.Lists.{split, marks_start, marks_loop, skip_braces, unread_loop, confs_loop}
use komandgo.Protocol.Response.{
  Response, generic_response, get_marks_response, get_text_response, z_conf_array_response,
  version_info_response, time_response, person_stat_response, unread_confs_response,
  who_am_i_response, text_response, string_response, u_conf_response, query_async_response, sends,
  closes, Goroutine, send_and_close, Handled, answer,
}
use komandgo.Types.Arrays.{read_uint32_array}
use komandgo.Types.Flags.{read_priv_bits, read_personal_flags, read_extended_conf_type}
use komandgo.Types.Records.{ConfZInfo, Mark}
use komandgo.Utils.{read_byte}

-- `genericCallback.OK`
unfoldable pub generic_ok : ℕ → Reader → Handled
generic_ok c r = answer c (generic_response 0 0 none) r

abbrev marks_answer : ℕ → Reader → Option (List Mark × Option GoError) → Handled
marks_answer c r none = none
marks_answer c r (some (marks, err)) = answer c (get_marks_response marks err) r

-- What follows the reading of the list.
abbrev marks_list : ℕ → ℕ → Bytes × Option GoError × Reader → Handled
marks_list c marks (ar, some e, r) = answer c (get_marks_response [] (some e)) (skip_to_newline r)
marks_list c marks (ar, none, r) =
    let tmp = split ar in
    marks_answer c (skip_to_newline r) (marks_loop marks tmp (marks_start tmp) [])

-- `getMarksCallback.OK`
unfoldable pub get_marks_ok : ℕ → Reader → Handled
get_marks_ok c r =
    let (marks, r1) = read_uint32 r in marks_list c marks (read_delimited_list b'{' b'}' r1)

-- `getTextCallback.OK`
unfoldable pub get_text_ok : ℕ → Reader → Handled
get_text_ok c r = let (s, err, r1) = Hollerith.scan r in answer c (get_text_response s err) r1

abbrev confs_answer : ℕ → Option GoError → Reader → Option (List ConfZInfo) → Handled
confs_answer c err r none = none
confs_answer c err r (some confs) =
    some ((sends c (z_conf_array_response confs err ∷ []) ∷ []) ∷ [], r)

-- `zConfArrayResponseCallback.OK`, which does not close its channel.
unfoldable pub z_conf_array_ok : ℕ → Reader → Handled
z_conf_array_ok c r =
    let (items, r1) = read_uint32 r in
    let (ar, err, r2) = read_delimited_list b'{' b'}' r1 in
    confs_answer c err r2 (confs_loop items ar 0 [])

abbrev or_else : Option GoError → Option GoError → Option GoError
or_else (some e) d = some e
or_else none d = d

-- `versionInfoResponseCallback.OK`: the error is that of the later string, if it has one.
unfoldable pub version_info_ok : ℕ → Reader → Handled
version_info_ok c r =
    let (protocol_version, r1) = read_uint32 r in
    let (server_software, err1, r2) = Hollerith.scan r1 in
    let (software_version, err2, r3) = Hollerith.scan r2 in
    answer c
      (version_info_response
        (record {
          protocol_version = protocol_version;
          server_software = server_software;
          software_version = software_version;
        })
        (or_else err2 err1))
      r3

-- `timeResponseCallback.OK`
unfoldable pub get_time_ok : ℕ → Reader → Handled
get_time_ok c r = let (tstamp, r1) = read_time r in answer c (time_response tstamp) r1

-- `personStatCallback.OK`: the name that it reads is dropped, and an error of it is only logged.
unfoldable pub person_stat_ok : ℕ → Reader → Handled
person_stat_ok c r =
    let (_, _, r0) = Hollerith.scan r in
    let (privileges, r1) = read_priv_bits r0 in
    let (flags, r2) = read_personal_flags r1 in
    let (last_login, r3) = read_time r2 in
    let (user_area, r4) = read_uint32 r3 in
    let (total_time_present, r5) = read_uint32 r4 in
    let (sessions, r6) = read_uint32 r5 in
    let (created_lines, r7) = read_uint32 r6 in
    let (created_bytes, r8) = read_uint32 r7 in
    let (read_texts, r9) = read_uint32 r8 in
    let (testfetches, r10) = read_uint32 r9 in
    let (created_persons, r11) = read_uint16 r10 in
    let (created_conferences, r12) = read_uint16 r11 in
    let (first_created_local_no, r13) = read_uint32 r12 in
    let (created_texts, r14) = read_uint32 r13 in
    let (marks, r15) = read_uint16 r14 in
    let (conferences, r16) = read_uint16 r15 in
    answer c
      (person_stat_response
        (record {
          username = [];
          privileges = privileges;
          flags = flags;
          last_login = last_login;
          user_area = user_area;
          total_time_present = total_time_present;
          sessions = sessions;
          created_lines = created_lines;
          created_bytes = created_bytes;
          read_texts = read_texts;
          testfetches = testfetches;
          created_persons = created_persons;
          created_conferences = created_conferences;
          first_created_local_no = first_created_local_no;
          created_texts = created_texts;
          marks = marks;
          conferences = conferences;
        })
        none)
      r16

-- The goroutines that are started among the values of `rv`: each sends the value of that time or a
-- later one.
unfoldable pub racing : ℕ → List (Bool × Response) → List Goroutine
racing c [] = []
racing c ((started, v) ∷ vs) =
    let later = racing c vs in
    if started then (sends c (v ∷ map (λ x. x.1) vs) ∷ closes c ∷ []) ∷ later else later

abbrev unread_values : ℕ → Reader → Option (List (Bool × Response)) → Handled
unread_values c r none = none
unread_values c r (some values) = some (racing c values, r)

abbrev unread_from : ℕ → List Bytes → Option ℕ → Option (List (Bool × Response))
unread_from confs tmp none = none
unread_from confs tmp (some start) = unread_loop confs tmp start [] none []

-- What follows the reading of the list.
abbrev unread_list : ℕ → ℕ → Bytes × Option GoError × Reader → Handled
unread_list c confs (ar, some e, r) =
    answer c (unread_confs_response [] (some e)) (skip_to_newline r)
unread_list c confs (ar, none, r) =
    let tmp = split ar in
    unread_values c (skip_to_newline r)
      (unread_from confs tmp (skip_braces (suc (length tmp)) tmp 0))

-- `unreadConfsCallback.OK`
unfoldable pub unread_confs_ok : ℕ → Reader → Handled
unread_confs_ok c r =
    let (confs, r1) = read_uint32 r in unread_list c confs (read_delimited_list b'{' b'}' r1)

-- `whoAmICallback.OK`
unfoldable pub who_am_i_ok : ℕ → Reader → Handled
who_am_i_ok c r = let (s, r1) = read_uint32 r in answer c (who_am_i_response s none) r1

-- `textResponseCallback.OK`
unfoldable pub text_ok : ℕ → Reader → Handled
text_ok c r = let (text_no, r1) = read_uint32 r in answer c (text_response text_no none) r1

-- `stringResponseCallback.OK`
unfoldable pub string_ok : ℕ → Reader → Handled
string_ok c r = let (str, err, r1) = Hollerith.scan r in answer c (string_response str err) r1

-- `uConfResponseCallback.OK`
unfoldable pub u_conf_ok : ℕ → Reader → Handled
u_conf_ok c r =
    let (name, err, r1) = Hollerith.scan r in
    let (type, r2) = read_extended_conf_type r1 in
    let (_, _, r3) = read_byte r2 in
    let (highest_local_no, r4) = read_uint32 r3 in
    let (nice, r5) = read_uint32 r4 in
    answer c
      (u_conf_response
        (record { name = name; type = type; highest_local_no = highest_local_no; nice = nice }) err)
      r5

-- `queryAsyncCallback.OK`: after an error it starts a second goroutine.
unfoldable pub query_async_ok : ℕ → Reader → Handled
query_async_ok c r =
    let (accepted, err, r1) = read_uint32_array r in
    let last = send_and_close c (query_async_response accepted none) in
    elim err [
      | some e ↦ some (send_and_close c (query_async_response [] (some e)) ∷ last ∷ [], r1)
      | none ↦ some (last ∷ [], r1)
    ]

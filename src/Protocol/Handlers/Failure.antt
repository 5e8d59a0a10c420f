-- ===== src/Protocol/Handlers/Failure.antt =====
-- pkg/protocol/client.go: the methods `Error` of the callbacks.
use komandgo.Base.{ℕ, false, [], ◌++◌, Option, none, some, codes}
use komandgo.Fmt.{format_decimal}
use komandgo.Fmt.Scan.{fscanf}
use komandgo.Io.{GoError, message, Reader}
use komandgo.Protocol.Errors.{protocol_error}
use komandgo.Protocol.Input.{read_error, error_format, skip_to_newline}
use komandgo.Protocol.Response.{
  Response, generic_response, get_marks_response, get_text_response, z_conf_array_response,
  version_info_response, person_stat_response, unread_confs_response, who_am_i_response,
  text_response, string_response, u_conf_response, query_async_response, Handled, answer,
}
use komandgo.Types.Records.{Person, UConference, VersionInfo}

-- `genericCallback.Error`, which has the body of `readError` written out. Its format too has two
-- verbs for three variables, so the status is 0.
unfoldable pub generic_error : ℕ → Reader → Handled
generic_error c r =
    let (found, err, r1) = fscanf error_format r in
    let r2 = skip_to_newline r1 in
    elim found [
      | none ↦ answer c (generic_response 0 0 err) r2
      | some (req_id, code) ↦
          answer c (generic_response code 0 (some (message (protocol_error code 0)))) r2
    ]

-- `getMarksCallback.Error`, likewise.
unfoldable pub get_marks_error : ℕ → Reader → Handled
get_marks_error c r =
    let (found, err, r1) = fscanf error_format r in
    let r2 = skip_to_newline r1 in
    elim found [
      | none ↦ answer c (get_marks_response [] err) r2
      | some (req_id, code) ↦
          answer c
            (get_marks_response [] (
              some (
                message (
                  codes "Generic error, code "
                  ++ (format_decimal code ++ (codes ", status " ++ format_decimal 0))))))
            r2
    ]

-- The error of the other callbacks: that of the reading, or the text for the code and the status.
abbrev error_of : ℕ → ℕ → Option GoError → GoError
error_of code status (some e) = e
error_of code status none = message (protocol_error code status)

-- What they all do, with the response that holds the error.
abbrev report : (GoError → Response) → ℕ → Reader → Handled
report make c r =
    let (code, status, err, r1) = read_error r in answer c (make (error_of code status err)) r1

-- `getTextCallback.Error`
unfoldable pub get_text_error : ℕ → Reader → Handled
get_text_error = report (λ e. get_text_response [] (some e))

-- `zConfArrayResponseCallback.Error`
unfoldable pub z_conf_array_error : ℕ → Reader → Handled
z_conf_array_error = report (λ e. z_conf_array_response [] (some e))

-- The zero values of the records.
abbrev no_version : VersionInfo
no_version = record { protocol_version = 0; server_software = []; software_version = [] }

abbrev no_person : Person
no_person = record {
  username = [];
  privileges = record {
    wheel = false;
    admin = false;
    statistic = false;
    create_persons = false;
    create_conferences = false;
    change_name = false;
  };
  flags = record { unread_is_secret = false };
  last_login = 0;
  user_area = 0;
  total_time_present = 0;
  sessions = 0;
  created_lines = 0;
  created_bytes = 0;
  read_texts = 0;
  testfetches = 0;
  created_persons = 0;
  created_conferences = 0;
  first_created_local_no = 0;
  created_texts = 0;
  marks = 0;
  conferences = 0;
}

abbrev no_conference : UConference
no_conference = record {
  name = [];
  type = record {
    rd_prot = false;
    original = false;
    secret = false;
    letter_box = false;
    allow_anonymous = false;
    forbid_secret = false;
    reserved2 = false;
    reserved3 = false;
  };
  highest_local_no = 0;
  nice = 0;
}

-- `versionInfoResponseCallback.Error`
unfoldable pub version_info_error : ℕ → Reader → Handled
version_info_error = report (λ e. version_info_response no_version (some e))

-- `timeResponseCallback.Error`, which has no body: it reads nothing and sends nothing.
pub get_time_error : ℕ → Reader → Handled
get_time_error c r = some ([], r)

-- `personStatCallback.Error`
unfoldable pub person_stat_error : ℕ → Reader → Handled
person_stat_error = report (λ e. person_stat_response no_person (some e))

-- `unreadConfsCallback.Error`
unfoldable pub unread_confs_error : ℕ → Reader → Handled
unread_confs_error = report (λ e. unread_confs_response [] (some e))

-- `whoAmICallback.Error`
unfoldable pub who_am_i_error : ℕ → Reader → Handled
who_am_i_error = report (λ e. who_am_i_response 0 (some e))

-- `textResponseCallback.Error`
unfoldable pub text_error : ℕ → Reader → Handled
text_error = report (λ e. text_response 0 (some e))

-- `stringResponseCallback.Error`
unfoldable pub string_error : ℕ → Reader → Handled
string_error = report (λ e. string_response [] (some e))

-- `uConfResponseCallback.Error`
unfoldable pub u_conf_error : ℕ → Reader → Handled
u_conf_error = report (λ e. u_conf_response no_conference (some e))

-- `queryAsyncCallback.Error`
unfoldable pub query_async_error : ℕ → Reader → Handled
query_async_error = report (λ e. query_async_response [] (some e))

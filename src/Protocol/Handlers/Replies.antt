-- ===== src/Protocol/Handlers/Replies.antt =====
-- What the callbacks send: which of them answer their caller once, and that failures are told.
use komandgo.Base.{ℕ, ◌≡◌, refl, ◌≢◌, [], ◌++◌, Option, none, some, inl, inr, Option-cases, codes}
use komandgo.Io.{GoError, Reader, message}
use komandgo.Fmt.{format_decimal}
use komandgo.Fmt.Scan.Fields.{fscanf-tells}
use komandgo.Protocol.Errors.{protocol_error}
use komandgo.Fmt.Scan.{fscanf}
use komandgo.Protocol.Client.{
  Callback, generic, get_marks, get_text, z_conf_array, version_info, get_time, person_stat,
  unread_confs, who_am_i, text_number, string_value, u_conf, query_async,
}
use komandgo.Protocol.Input.{error_format, skip_to_newline}
use komandgo.Protocol.Response.{
  Response, generic_response, get_marks_response, get_text_response, z_conf_array_response,
  version_info_response, time_response, person_stat_response, unread_confs_response,
  who_am_i_response, text_response, string_response, u_conf_response, query_async_response, Handled,
  answer,
}
use komandgo.Protocol.Handlers.{call_ok, call_error}
use komandgo.Protocol.Handlers.Success.{
  generic_ok, get_text_ok, version_info_ok, get_time_ok, person_stat_ok, who_am_i_ok, text_ok,
  string_ok, u_conf_ok,
}
use komandgo.Protocol.Handlers.Failure.{
  generic_error, get_marks_error, get_text_error, z_conf_array_error, version_info_error,
  person_stat_error, unread_confs_error, who_am_i_error, text_error, string_error, u_conf_error,
  query_async_error,
}

-- The channel of a callback.
abbrev pub channel_of : Callback → ℕ
channel_of (generic c) = c
channel_of (get_marks c) = c
channel_of (get_text c) = c
channel_of (z_conf_array c) = c
channel_of (version_info c) = c
channel_of (get_time c) = c
channel_of (person_stat c) = c
channel_of (unread_confs c) = c
channel_of (who_am_i c) = c
channel_of (text_number c) = c
channel_of (string_value c) = c
channel_of (u_conf c) = c
channel_of (query_async c) = c

-- The error that a response holds.
abbrev pub error_in : Response → Option GoError
error_in (generic_response _ _ e) = e
error_in (get_marks_response _ e) = e
error_in (get_text_response _ e) = e
error_in (z_conf_array_response _ e) = e
error_in (version_info_response _ e) = e
error_in (time_response _) = none
error_in (person_stat_response _ e) = e
error_in (unread_confs_response _ e) = e
error_in (who_am_i_response _ e) = e
error_in (text_response _ e) = e
error_in (string_response _ e) = e
error_in (u_conf_response _ e) = e
error_in (query_async_response _ e) = e

-- One goroutine has been started, which sends one value on the channel and closes it.
abbrev pub Replies : ℕ → Handled → Type 0
Replies c h = (v : Response) × (r : Reader) × (h ≡ answer c v r)

-- So, and the value holds an error.
abbrev pub Refuses : ℕ → Handled → Type 0
Refuses c h = (v : Response) × (r : Reader) × (h ≡ answer c v r) × (error_in v ≢ none)

-- The callbacks that read no list.
abbrev pub ReadsNoList : Callback → Type 0
ReadsNoList (get_marks c) = ⊥
ReadsNoList (z_conf_array c) = ⊥
ReadsNoList (unread_confs c) = ⊥
ReadsNoList (query_async c) = ⊥
ReadsNoList _ = Unit

-- Whatever the input is, the method `OK` of a callback that reads no list does not panic and starts
-- one goroutine, which sends one response on the channel of the callback and closes it.
pub call_ok-Replies :
    (c : Callback) (r : Reader) → ReadsNoList c → Replies (channel_of c) (call_ok c r)
unfolding call_ok generic_ok get_text_ok version_info_ok get_time_ok person_stat_ok who_am_i_ok
    text_ok string_ok u_conf_ok
call_ok-Replies (generic c) r h = (_, _, refl)
call_ok-Replies (get_text c) r h = (_, _, refl)
call_ok-Replies (version_info c) r h = (_, _, refl)
call_ok-Replies (get_time c) r h = (_, _, refl)
call_ok-Replies (person_stat c) r h = (_, _, refl)
call_ok-Replies (who_am_i c) r h = (_, _, refl)
call_ok-Replies (text_number c) r h = (_, _, refl)
call_ok-Replies (string_value c) r h = (_, _, refl)
call_ok-Replies (u_conf c) r h = (_, _, refl)
call_ok-Replies (get_marks c) r h = elim h [ ]
call_ok-Replies (z_conf_array c) r h = elim h [ ]
call_ok-Replies (unread_confs c) r h = elim h [ ]
call_ok-Replies (query_async c) r h = elim h [ ]

some-ne_none : (e : GoError) → some e ≢ none
some-ne_none e h = cc

-- The callbacks that say something when the server reports an error.
abbrev pub TellsErrors : Callback → Type 0
TellsErrors (get_time c) = ⊥
TellsErrors _ = Unit

-- The two that read the error themselves.
module _ (c : ℕ) (r : Reader) where
  generic_error-Refuses : Refuses c (generic_error c r)
  unfolding generic_error
  generic_error-Refuses =
      let (found, err, r1) = fscanf error_format r in
      elim (Option-cases (fscanf error_format r).0) [
        | inl e ↦ (
          generic_response 0 0 err,
          skip_to_newline r1,
          rw (e, generic_error) refl,
          fscanf-tells error_format r e,
        )
        | inr ((id, code), e) ↦ (
          generic_response code 0 (some (message (protocol_error code 0))),
          skip_to_newline r1,
          rw (e, generic_error) refl,
          some-ne_none (message (protocol_error code 0)),
        )
      ]

  get_marks_error-Refuses : Refuses c (get_marks_error c r)
  unfolding get_marks_error
  get_marks_error-Refuses =
      let (found, err, r1) = fscanf error_format r in
      elim (Option-cases (fscanf error_format r).0) [
        | inl e ↦ (
          get_marks_response [] err,
          skip_to_newline r1,
          rw (e, get_marks_error) refl,
          fscanf-tells error_format r e,
        )
        | inr ((id, code), e) ↦
            let told = message (
              codes "Generic error, code "
              ++ (format_decimal code ++ (codes ", status " ++ format_decimal 0))) in
            (
              get_marks_response [] (some told),
              skip_to_newline r1,
              rw (e, get_marks_error) refl,
              some-ne_none told,
            )
      ]

-- Whatever the input is, the method `Error` of a callback other than that of `asyncGetTime` does not
-- panic and starts one goroutine, which sends one response, with an error in it, on the channel of
-- the callback and closes it.
pub call_error-Refuses :
    (c : Callback) (r : Reader) → TellsErrors c → Refuses (channel_of c) (call_error c r)
unfolding call_error get_text_error z_conf_array_error version_info_error person_stat_error
    unread_confs_error who_am_i_error text_error string_error u_conf_error query_async_error
call_error-Refuses (generic c) r h = generic_error-Refuses c r
call_error-Refuses (get_text c) r h = (_, _, refl, some-ne_none _)
call_error-Refuses (version_info c) r h = (_, _, refl, some-ne_none _)
call_error-Refuses (get_time c) r h = elim h [ ]
call_error-Refuses (person_stat c) r h = (_, _, refl, some-ne_none _)
call_error-Refuses (who_am_i c) r h = (_, _, refl, some-ne_none _)
call_error-Refuses (text_number c) r h = (_, _, refl, some-ne_none _)
call_error-Refuses (string_value c) r h = (_, _, refl, some-ne_none _)
call_error-Refuses (u_conf c) r h = (_, _, refl, some-ne_none _)
call_error-Refuses (get_marks c) r h = get_marks_error-Refuses c r
call_error-Refuses (z_conf_array c) r h = (_, _, refl, some-ne_none _)
call_error-Refuses (unread_confs c) r h = (_, _, refl, some-ne_none _)
call_error-Refuses (query_async c) r h = (_, _, refl, some-ne_none _)

-- ===== src/Protocol/Handlers.antt =====
-- pkg/protocol/client.go: the callbacks. `OK` reads what a successful response carries, and `Error`
-- what a failed one does; each starts the goroutine that sends the outcome to the caller.
pub mod Success
pub mod Failure
pub mod Replies
pub mod Schedules
pub mod Marks
pub mod Unread
pub mod Braced
pub mod Async
pub mod Conferences
use komandgo.Base.{◌≡◌, refl, ℕ, Option, none, some, Bytes}
use komandgo.Io.{Reader}
use komandgo.Protocol.Client.{
  Callback, generic, get_marks, get_text, z_conf_array, version_info, get_time, person_stat,
  unread_confs, who_am_i, text_number, string_value, u_conf, query_async,
}
use komandgo.Protocol.Response.{Handled}
use Success.{
  generic_ok, get_marks_ok, get_text_ok, z_conf_array_ok, version_info_ok, get_time_ok,
  person_stat_ok, unread_confs_ok, who_am_i_ok, text_ok, string_ok, u_conf_ok, query_async_ok,
}
use Failure.{
  generic_error, get_marks_error, get_text_error, z_conf_array_error, version_info_error,
  get_time_error, person_stat_error, unread_confs_error, who_am_i_error, text_error, string_error,
  u_conf_error, query_async_error,
}

-- `callback.OK(r)`
unfoldable pub call_ok : Callback → Reader → Handled
call_ok (generic c) r = generic_ok c r
call_ok (get_marks c) r = get_marks_ok c r
call_ok (get_text c) r = get_text_ok c r
call_ok (z_conf_array c) r = z_conf_array_ok c r
call_ok (version_info c) r = version_info_ok c r
call_ok (get_time c) r = get_time_ok c r
call_ok (person_stat c) r = person_stat_ok c r
call_ok (unread_confs c) r = unread_confs_ok c r
call_ok (who_am_i c) r = who_am_i_ok c r
call_ok (text_number c) r = text_ok c r
call_ok (string_value c) r = string_ok c r
call_ok (u_conf c) r = u_conf_ok c r
call_ok (query_async c) r = query_async_ok c r

-- `callback.Error(r)`
unfoldable pub call_error : Callback → Reader → Handled
call_error (generic c) r = generic_error c r
call_error (get_marks c) r = get_marks_error c r
call_error (get_text c) r = get_text_error c r
call_error (z_conf_array c) r = z_conf_array_error c r
call_error (version_info c) r = version_info_error c r
call_error (get_time c) r = get_time_error c r
call_error (person_stat c) r = person_stat_error c r
call_error (unread_confs c) r = unread_confs_error c r
call_error (who_am_i c) r = who_am_i_error c r
call_error (text_number c) r = text_error c r
call_error (string_value c) r = string_error c r
call_error (u_conf c) r = u_conf_error c r
call_error (query_async c) r = query_async_error c r

-- ===== src/Protocol/Handlers/Schedules.antt =====
-- What a caller receives from the callbacks, under any schedule of the goroutines that they start.
use komandgo.Base.{ℕ, ◌≡◌, ◌≢◌, List, [], ◌∷◌, ◌++◌, none, some}
use komandgo.Io.{Reader}
use komandgo.Protocol.Channels.{Channel, going, run, awaiting}
use komandgo.Protocol.Channels.Replies.{AtMost, Answered, run-send_and_close}
use komandgo.Protocol.Client.{
  Callback, generic, get_marks, get_text, z_conf_array, version_info, get_time, person_stat,
  unread_confs, who_am_i, text_number, string_value, u_conf, query_async,
}
use komandgo.Protocol.Handlers.{call_ok, call_error}
use komandgo.Protocol.Handlers.Marks.{get_marks_ok-Replies}
use komandgo.Protocol.Handlers.Replies.{
  Replies, channel_of, error_in, TellsErrors, call_ok-Replies, call_error-Refuses,
}
use komandgo.Protocol.Response.{Response, Goroutine}

-- After any schedule of the goroutines, with one caller that waits, nothing has crashed and the caller
-- has nothing or just the value `v`; and two more turns of the first give it `v` and close the channel.
abbrev pub Delivers : Response → List Goroutine → Type 0
Delivers v gs =
    (es : List (ℕ × ℕ))
    → ((ch : Channel) × (run es (going (awaiting gs)) ≡ going ch) × AtMost v ch)
      × Answered v (run (es ++ (0, 0) ∷ (0, 0) ∷ []) (going (awaiting gs)))

-- The callbacks whose method `OK` answers once: the list of conferences is not closed, and those of
-- the unread conferences and of the messages that the server sends by itself can answer twice.
abbrev pub AnswersOnce : Callback → Type 0
AnswersOnce (z_conf_array c) = ⊥
AnswersOnce (unread_confs c) = ⊥
AnswersOnce (query_async c) = ⊥
AnswersOnce _ = Unit

AnswersOnce-Replies :
    (c : Callback) (r : Reader) → AnswersOnce c → Replies (channel_of c) (call_ok c r)
unfolding call_ok
AnswersOnce-Replies (generic c) r h = call_ok-Replies (generic c) r tt
AnswersOnce-Replies (get_text c) r h = call_ok-Replies (get_text c) r tt
AnswersOnce-Replies (version_info c) r h = call_ok-Replies (version_info c) r tt
AnswersOnce-Replies (get_time c) r h = call_ok-Replies (get_time c) r tt
AnswersOnce-Replies (person_stat c) r h = call_ok-Replies (person_stat c) r tt
AnswersOnce-Replies (who_am_i c) r h = call_ok-Replies (who_am_i c) r tt
AnswersOnce-Replies (text_number c) r h = call_ok-Replies (text_number c) r tt
AnswersOnce-Replies (string_value c) r h = call_ok-Replies (string_value c) r tt
AnswersOnce-Replies (u_conf c) r h = call_ok-Replies (u_conf c) r tt
AnswersOnce-Replies (get_marks c) r h = get_marks_ok-Replies c r
AnswersOnce-Replies (z_conf_array c) r h = elim h [ ]
AnswersOnce-Replies (unread_confs c) r h = elim h [ ]
AnswersOnce-Replies (query_async c) r h = elim h [ ]

-- Whatever the input is, the method `OK` of a callback other than those of `asyncLookupZName` and
-- `asyncReZLookup`, `asyncGetUnreadConfs` and `asyncQueryAsync` does not panic. After any schedule of
-- what it starts, with one caller that waits, nothing has crashed and the caller has nothing or just
-- the one response; and after two more turns it has the response and the channel is closed.
pub call_ok-Delivers :
    (c : Callback) (r : Reader)
    → AnswersOnce c
    → (gs : List Goroutine) × (r' : Reader) × (v : Response) × (call_ok c r ≡ some (gs, r'))
      × Delivers v gs
call_ok-Delivers c r h =
    let (v, r', e) = AnswersOnce-Replies c r h in (_, r', v, e, run-send_and_close (channel_of c) v)

-- Whatever the input is, the method `Error` of a callback other than that of `asyncGetTime` does not
-- panic. After any schedule of what it starts, with one caller that waits, nothing has crashed and the
-- caller has nothing or just the one response, which has an error in it; and after two more turns it
-- has the response and the channel is closed.
pub call_error-Delivers :
    (c : Callback) (r : Reader)
    → TellsErrors c
    → (gs : List Goroutine) × (r' : Reader) × (v : Response) × (call_error c r ≡ some (gs, r'))
      × (error_in v ≢ none)
      × Delivers v gs
call_error-Delivers c r h =
    let (v, r', e, told) = call_error-Refuses c r h in
    (_, r', v, e, told, run-send_and_close (channel_of c) v)

-- ===== src/Examples/Responses.antt =====
-- Responses, times and connections at concrete inputs.
use komandgo.Base.{
  ◌-◌, ◌≡◌, inl, inr, refl, List, [], ◌∷◌, ◌++◌, true, false, none, some, arith, codes,
}
use komandgo.Fmt.{format_decimal}
use komandgo.Io.{GoError, broken, byte, Reader, reader, feed, takes, writer}
use komandgo.Protocol.Client.{new_client}
use komandgo.Protocol.Server.{new_server, find_name}
use komandgo.Protocol.Handlers.Async.{Crashes, query_async_ok_lem}
use komandgo.Protocol.Handlers.Braced.{braced}
use komandgo.Protocol.Handlers.Conferences.{NoBrace, z_conf_array_ok-confs_text}
use komandgo.Protocol.Lists.Conferences.{confs_text}
use komandgo.Protocol.Handlers.Marks.{get_marks_ok-Replies, get_marks_ok-marks}
use komandgo.Protocol.Handlers.Replies.{Replies}
use komandgo.Protocol.Handlers.Success.{
  get_marks_ok, z_conf_array_ok, unread_confs_ok, query_async_ok,
}
use komandgo.Protocol.Handlers.Unread.{unread_confs_ok-uint32_array}
use komandgo.Protocol.Input.{read_time}
use komandgo.Protocol.Input.Times.{read_time-string_time}
use komandgo.Protocol.Response.{
  sends, z_conf_array_response, Goroutine, get_marks_response, unread_confs_response, answer,
}
use komandgo.Protocol.Connect.{connected, refused, new_kom_client}
use komandgo.Protocol.Connect.Dialling.{world, new_kom_client_lem}
use komandgo.Types.Arrays.{uint32_array, read_uint32_array}
use komandgo.Types.Records.{Mark, ConfZInfo}
use komandgo.Types.Time.{Civil, date, string_time}

abbrev two_marks : List Mark
two_marks = record { text_no = 13; type = 4 } ∷ record { text_no = 15; type = 200 } ∷ []

get_marks_ok-Replies_example :
    Replies 3 (get_marks_ok 3 (reader false (feed (codes "9 { 13 4 }\n") [])))
get_marks_ok-Replies_example =
    get_marks_ok-Replies 3 (reader false (feed (codes "9 { 13 4 }\n") []))

get_marks_ok-marks_example :
    get_marks_ok 3 (
      reader false (
        feed
          (format_decimal 2 ++ b' ' ∷ braced (13 ∷ 4 ∷ 15 ∷ 200 ∷ []))
          (byte 10 ∷ byte b'=' ∷ [])))
    ≡ answer 3 (get_marks_response two_marks none) (reader false (byte b'=' ∷ []))
get_marks_ok-marks_example =
    get_marks_ok-marks 3 two_marks false (byte b'=' ∷ [])
      ((omega arith, omega arith), ((omega arith, omega arith), tt)) (omega arith)

unread_confs_ok-uint32_array_example :
    unread_confs_ok 3 (reader false (feed (uint32_array (6 ∷ 7 ∷ [])) (byte 10 ∷ [])))
    ≡ answer 3 (unread_confs_response (6 ∷ 7 ∷ []) none) (reader false [])
unread_confs_ok-uint32_array_example =
    unread_confs_ok-uint32_array 3 (6 ∷ 7 ∷ []) false [] (omega arith, (omega arith, tt))
      (omega arith)

query_async_ok_lem_example :
    ((read_uint32_array (reader true [])).1 ≡ none → Replies 3 (query_async_ok 3 (reader true [])))
    × ((e : GoError)
        → (read_uint32_array (reader true [])).1 ≡ some e
        → (gs : List Goroutine) × (r' : Reader) × (query_async_ok 3 (reader true [])
            ≡ some (gs, r'))
          × Crashes gs)
query_async_ok_lem_example = query_async_ok_lem 3 (reader true [])

abbrev july : Civil
july = record {
  second = 49;
  minute = 6;
  hour = 22;
  day = 19;
  month = 7;
  year = 1997;
  weekday = 6;
  year_day = 200;
  is_dst = true;
}

read_time-string_time_example :
    read_time (reader true (feed (string_time july) (byte 10 ∷ [])))
    ≡ (date 1997 (7 - 1) 19 22 6 49, reader true [])
read_time-string_time_example =
    read_time-string_time july 10 []
      (record {
        second = omega arith;
        minute = omega arith;
        hour = omega arith;
        day = omega arith;
        month = (omega arith, omega arith);
        year = (omega arith, omega arith);
        weekday = omega arith;
        year_day = (omega arith, omega arith);
      })
      (inr refl)

new_kom_client_lem_example :
    (new_kom_client
        (codes "kom:4894")
        (world [] (connected (writer [] []) ∷ connected (writer (takes 1 ∷ []) []) ∷ []) [])
      ≡ (
        inl (new_client new_server (writer (takes 1 ∷ []) [])),
        world [] [] ([] ++ codes "kom:4894" ∷ codes "kom:4894" ∷ []),
      ))
    × (new_kom_client
          (codes "kom:4894")
          (world [] (connected (writer [] []) ∷ refused (broken 1) ∷ []) [])
        ≡ (inr (broken 1), world [] [] ([] ++ codes "kom:4894" ∷ codes "kom:4894" ∷ [])))
    × (new_kom_client (codes "kom:4894") (world [] (refused (broken 1) ∷ []) [])
        ≡ (inr (broken 1), world [] [] ([] ++ codes "kom:4894" ∷ [])))
unfolding find_name
new_kom_client_lem_example =
    new_kom_client_lem (codes "kom:4894") [] [] [] (writer [] []) (writer (takes 1 ∷ []) [])
      (broken 1) refl

abbrev inbox : ConfZInfo
inbox = record {
  name = codes "Inbox 1H";
  type = record { rd_prot = true; original = false; secret = true; letter_box = false };
  conf_no = 6;
}

z_conf_array_ok-confs_text_example :
    z_conf_array_ok 3 (
      reader false
        (feed (format_decimal 2 ++ b' ' ∷ b'{' ∷ confs_text (inbox ∷ inbox ∷ [])) (byte 10 ∷ [])))
    ≡ some (
      (sends 3 (z_conf_array_response (inbox ∷ inbox ∷ []) none ∷ []) ∷ []) ∷ [],
      reader false (byte 10 ∷ []),
    )
z_conf_array_ok-confs_text_example =
    z_conf_array_ok-confs_text 3 (inbox ∷ inbox ∷ []) false (byte 10 ∷ [])
      ((omega arith, omega arith), ((omega arith, omega arith), tt)) (inbox_name, (inbox_name, tt))
      (omega arith)
  where
    inbox_name : NoBrace (codes "Inbox 1H")
    inbox_name = (
      omega arith,
      (
        omega arith,
        (
          omega arith,
          (omega arith, (omega arith, (omega arith, (omega arith, (omega arith, tt))))),
        ),
      ),
    )

-- ===== src/Examples/Requests.antt =====
-- Requests at concrete inputs: the lines and what a server reads of them.
use komandgo.Base.{◌<◌, ◌^◌, ◌≡◌, [], ◌∷◌, ◌++◌, true, none, some, arith, Bytes, codes}
use komandgo.Io.{byte, reader, feed, takes, writer}
use komandgo.Protocol.Client.{KomClient, new_client, conference_from_name}
use komandgo.Protocol.Client.Pending.{waiting}
use komandgo.Protocol.Server.{new_server, lookup_conference, lookup_user, find_name}
use komandgo.Protocol.Requests.Calls.{
  Request, call_request, callback_of, ask_send_message, ask_set_supervisor,
}
use komandgo.Protocol.Requests.Delivery.{call_request-read_request, call_request-Confused_names}
use komandgo.Protocol.Requests.Messages.{whole, protocol_message, supervisor}
use komandgo.Protocol.Requests.Reading.{read_request}

abbrev client : KomClient
client = new_client new_server (writer (takes 2 ∷ takes 9 ∷ []) [])

abbrev greeting : Request
greeting = ask_send_message 7 (codes "God dag 1H")

call_request-read_request_example :
    (sent : Bytes) × (k' : KomClient) × (call_request greeting client ≡ some (0, none, k'))
    × (k'.socket.wire ≡ [] ++ sent)
    × (waiting k' 0 ≡ some (callback_of greeting 0))
    × (read_request (reader true (feed sent (byte b'1' ∷ [])))
        ≡ (0, 53, (protocol_message client greeting).1, reader true (byte b'1' ∷ [])))
call_request-read_request_example =
    call_request-read_request greeting client (byte b'1' ∷ []) tt (omega arith, (omega arith, tt))
      (omega arith) ((omega arith, (omega arith, tt)), tt)

inbox_resolved : conference_from_name client (codes "Inbox") < 2 ^ 32
unfolding conference_from_name lookup_conference lookup_user find_name
inbox_resolved = omega arith

call_request-Confused_names_example :
    (sent : Bytes) × (k' : KomClient) × (call_request
        (ask_set_supervisor (codes "Inbox") (codes "Ann"))
        client
      ≡ some (0, none, k'))
    × (k'.socket.wire ≡ [] ++ sent)
    × (read_request (reader true (feed sent [])) ≡ (
      0,
      18,
      whole (conference_from_name client (codes "Inbox"))
          ∷ whole (conference_from_name client (codes "Inbox"))
          ∷ [],
      reader true [],
    ))
call_request-Confused_names_example =
    call_request-Confused_names client [] (supervisor (codes "Inbox") (codes "Ann")) inbox_resolved
      (omega arith) ((omega arith, (omega arith, tt)), tt)

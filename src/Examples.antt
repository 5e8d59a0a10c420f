-- ===== src/Examples.antt =====
-- The theorems at concrete inputs, where their hypotheses hold: strings, arrays, requests and
-- responses of the sizes that the tests of the packages use.
pub mod Requests
pub mod Responses
use komandgo.Base.{
  ◌+◌, ◌%◌, ◌^◌, ◌≡◌, refl, ◌≢◌, true, false, [], ◌∷◌, ◌++◌, none, some, arith, codes,
  if◌then◌else◌, ◌==◌, Option, ◌⊎◌, List, Bytes,
}
use komandgo.Fmt.{format_decimal}
use komandgo.Hollerith.{text, sprint, scan, from_string}
use komandgo.Hollerith.Scanning.{scan-sprint}
use komandgo.Hollerith.Slicing.{from_string-sprint, from_string_panics_lem}
use komandgo.Io.{
  byte, broken, unknown_request, Reader, reader, feed, takes, Writer, GoError, breaks, writer,
}
use komandgo.Protocol.Channels.{going, crashed, run, awaiting}
use komandgo.Protocol.Handlers.Schedules.{Delivers, call_ok-Delivers, call_error-Delivers}
use komandgo.Protocol.Client.{
  KomClient, new_client, who_am_i, generic, text_number, get_marks, lookup, register_callback,
  get_callback, send_line,
}
use komandgo.Protocol.Client.Pending.{waiting, get-register}
use komandgo.Protocol.Client.Sending.{send_line-AlwaysMoves}
use komandgo.Protocol.Client.Sending.Stalls.{Sent, Stuck, send_line-Sent}
use komandgo.Protocol.Client.Slots.{registers, answers, code_run, slot_run, code_run-slots}
use komandgo.Protocol.Input.{
  read_uint32, read_uint16, read_error, skip_to_newline, number_loop, list_loop, skip_loop,
}
use komandgo.Protocol.Input.Failures.{pair, read_error-pair, read_error_takes_next_line}
use komandgo.Protocol.Input.Lines.{skip_to_newline-feed, reading_loops_end}
use komandgo.Protocol.Input.Numbers.{
  by_byte, by_eof, read_uint32-format, read_uint16-format, read_uint32-ends,
}
use komandgo.Protocol.Handlers.{call_ok, call_error}
use komandgo.Protocol.Handlers.Replies.{
  Replies, Refuses, error_in, call_ok-Replies, call_error-Refuses,
}
use komandgo.Protocol.Receive.{receive_round, receive_loop}
use komandgo.Protocol.Receive.Dispatch.{
  before, response, without, rounds_only, receive_round-error, receive_round-unknown,
  receive_loop_at_eof,
}
use komandgo.Protocol.Response.{
  Response, Goroutine, who_am_i_response, query_async_response, send_and_close,
}
use komandgo.Protocol.Server.{new_server}
use komandgo.Types.Arrays.{uint32_array, read_uint32_array}
use komandgo.Types.Arrays.RoundTrip.{read_uint32_array-uint32_array}
use komandgo.Types.Flags.{
  ConfType, ExtendedConfType, PrivBits, extended, bit_field, conf_bit_field, priv_repr,
  extended_repr, read_priv_bits, read_extended_conf_type, parse_conf_type,
}
use komandgo.Types.Flags.RoundTrip.{
  read_priv_bits-repr, read_extended_conf_type-repr, without_reserved, bit_field-repr,
  parse_conf_type-bit_field,
}
use komandgo.Utils
use komandgo.Utils.{read_uint32_from_string}
use komandgo.Utils.Numbers.{read_uint32_from_string-digits}
use komandgo.Utils.Reading.{read_delimited_list-feed}

abbrev client : KomClient
client = new_client new_server (writer [] [])

code_run-slots_example :
    code_run (registers (who_am_i 0) ∷ registers (generic 1) ∷ answers 0 ∷ answers 0 ∷ []) client
    ≡ slot_run (registers (who_am_i 0) ∷ registers (generic 1) ∷ answers 0 ∷ answers 0 ∷ []) []
code_run-slots_example =
    code_run-slots (registers (who_am_i 0) ∷ registers (generic 1) ∷ answers 0 ∷ answers 0 ∷ [])
      new_server (writer [] []) (omega arith)

get-register_example :
    let (id, k1) = register_callback (who_am_i 5) client in
    let (found, err, k2) = get_callback id k1 in
    (found ≡ some (who_am_i 5))
    × (err ≡ none)
    × ((get_callback id k2).0 ≡ none)
    × ((get_callback id k2).1 ≡ some (unknown_request id))
    × (id ≢ 1 → (waiting k1 1 ≡ waiting client 1) × (waiting k2 1 ≡ waiting client 1))
get-register_example = get-register (who_am_i 5) client 1

send_line-AlwaysMoves_example :
    (w' : Writer) × (send_line (codes "1 2") (writer (takes 1 ∷ takes 9 ∷ []) []) ≡ some (none, w'))
    × (w'.wire ≡ [] ++ (codes "1 2" ++ 10 ∷ []))
send_line-AlwaysMoves_example =
    send_line-AlwaysMoves (codes "1 2") (writer (takes 1 ∷ takes 9 ∷ []) [])
      ((omega arith, (omega arith, tt)), tt)

abbrev deaf_socket : Writer
deaf_socket = record { outcomes = takes 1 ∷ []; behind = takes 0; wire = [] }

send_line-Sent_example :
    ((r : Option GoError × Writer) × (send_line (codes "1 2") deaf_socket ≡ some r)
      × Sent (codes "1 2") deaf_socket r)
    ⊎ Stuck (codes "1 2") deaf_socket
send_line-Sent_example = send_line-Sent (codes "1 2") deaf_socket

scan-sprint_example :
    scan (reader false (feed (sprint (text (codes "12H!"))) (byte b' ' ∷ [])))
    ≡ (codes "12H!", none, reader false (byte b' ' ∷ []))
scan-sprint_example = scan-sprint (codes "12H!") false (byte b' ' ∷ []) (omega arith)

from_string-sprint_example : from_string (codes "{ 3H1H1 }") 1 ≡ some (codes "1H1", 1 + 1 + 5)
unfolding sprint
from_string-sprint_example =
    from_string-sprint (codes "{ 3H1H1 }") 1 (codes " ") (codes "1H1") (codes " }") refl
      ((omega arith, omega arith), tt) (omega arith)

from_string_panics_lem_example : from_string (codes "H12") 1 ≡ none
from_string_panics_lem_example =
    from_string_panics_lem (codes "H12") 1 (omega arith, (omega arith, tt))

read_uint32_array-uint32_array_example :
    read_uint32_array (reader true (feed (uint32_array (5 ∷ 0 ∷ [])) (byte 10 ∷ [])))
    ≡ (5 ∷ 0 ∷ [], none, reader true (byte 10 ∷ []))
read_uint32_array-uint32_array_example =
    read_uint32_array-uint32_array (5 ∷ 0 ∷ []) (byte 10 ∷ []) (omega arith, (omega arith, tt))
      (omega arith)

abbrev privileges : PrivBits
privileges = record {
  wheel = true;
  admin = false;
  statistic = true;
  create_persons = false;
  create_conferences = true;
  change_name = true;
}

read_priv_bits-repr_example :
    read_priv_bits (reader false (feed (priv_repr privileges) (byte 10 ∷ [])))
    ≡ (privileges, reader false (byte 10 ∷ []))
read_priv_bits-repr_example = read_priv_bits-repr privileges false (byte 10 ∷ [])

abbrev letters : ExtendedConfType
letters = record {
  rd_prot = true;
  original = false;
  secret = false;
  letter_box = true;
  allow_anonymous = true;
  forbid_secret = false;
  reserved2 = true;
  reserved3 = false;
}

read_extended_conf_type-repr_example :
    read_extended_conf_type (reader true (feed (extended_repr letters) []))
    ≡ (letters, reader true [])
read_extended_conf_type-repr_example = read_extended_conf_type-repr letters true []

bit_field-repr_example : bit_field (extended letters) ≡ extended_repr (without_reserved letters)
bit_field-repr_example = bit_field-repr letters

abbrev closed_conf : ConfType
closed_conf = record { rd_prot = true; original = false; secret = true; letter_box = false }

parse_conf_type-bit_field_example : parse_conf_type (codes " 1010 6") 1 ≡ some closed_conf
unfolding bit_field conf_bit_field
parse_conf_type-bit_field_example =
    parse_conf_type-bit_field closed_conf (codes " 1010 6") 1 (codes " 6") refl

read_uint32_from_string-digits_example : read_uint32_from_string (codes "a 4294967299;") 1 ≡ (3, 12)
read_uint32_from_string-digits_example =
    read_uint32_from_string-digits (codes "a 4294967299;") 1 (codes " ") b'4' (codes "294967299")
      (codes ";") refl (omega arith, tt)
      (
        omega arith,
        (
          omega arith,
          (
            omega arith,
            (
              omega arith,
              (
                omega arith,
                (omega arith, (omega arith, (omega arith, (omega arith, (omega arith, tt))))),
              ),
            ),
          ),
        ),
      )
      (omega arith)

read_delimited_list-feed_example :
    Utils.read_delimited_list b'{' b'}' (reader false (feed (codes "{ 1 }") (byte 10 ∷ [])))
    ≡ (codes "{ 1 }", none, reader false (byte 10 ∷ []))
read_delimited_list-feed_example =
    read_delimited_list-feed b'{' b'}' (codes " 1 ") false (byte 10 ∷ [])
      (omega arith, (omega arith, (omega arith, tt)))

read_uint32-format_example :
    read_uint32 (reader false (feed (format_decimal 4294967299) (byte b' ' ∷ byte b'7' ∷ [])))
    ≡ (4294967299 % 2 ^ 32, reader false (byte b'7' ∷ []))
read_uint32-format_example =
    read_uint32-format 4294967299 false (by_byte b' ' (byte b'7' ∷ []) (omega arith))

read_uint16-format_example :
    read_uint16 (reader false (feed (format_decimal 65541) [])) ≡ (65541 % 2 ^ 16, reader false [])
read_uint16-format_example = read_uint16-format 65541 false by_eof

read_uint32-ends_example :
    (number_loop (2 ^ 32) 9 0 (reader false (feed (codes "12 ") []))
      ≡ some (read_uint32 (reader false (feed (codes "12 ") []))))
    × (number_loop (2 ^ 16) 9 0 (reader false (feed (codes "12 ") []))
        ≡ some (read_uint16 (reader false (feed (codes "12 ") []))))
read_uint32-ends_example = read_uint32-ends 9 (reader false (feed (codes "12 ") [])) (omega arith)

skip_to_newline-feed_example :
    skip_to_newline (reader false (feed (codes "ab") (byte 10 ∷ byte b'=' ∷ [])))
    ≡ reader false (byte b'=' ∷ [])
skip_to_newline-feed_example =
    skip_to_newline-feed (codes "ab") false (byte b'=' ∷ []) (omega arith, (omega arith, tt))

reading_loops_end_example :
    (v : Bytes × Option GoError × Reader) × (r' : Reader) × (Utils.list_loop 9 b'}' []
        (reader false (feed (codes "ab") []))
      ≡ some v)
    × (list_loop 9 b'}' [] (reader false (feed (codes "ab") [])) ≡ some v)
    × (skip_loop 9 b'x' (reader false (feed (codes "ab") [])) ≡ some r')
reading_loops_end_example =
    reading_loops_end 9 b'}' [] b'x' (reader false (feed (codes "ab") [])) (omega arith)

read_error-pair_example :
    read_error (reader true (pair 14 4711 (byte 10 ∷ byte b'=' ∷ [])))
    ≡ (4711, 0, none, reader true (byte b'=' ∷ []))
read_error-pair_example = read_error-pair 14 4711 (byte b'=' ∷ []) (omega arith) (omega arith)

read_error_takes_next_line_example :
    read_error (reader false (pair 14 4711 (byte 10 ∷ feed (codes "=2") (byte 10 ∷ []))))
    ≡ (4711, 0, none, reader false [])
read_error_takes_next_line_example =
    read_error_takes_next_line 14 4711 (codes "=2") [] (omega arith) (omega arith)
      (omega arith, (omega arith, tt))

call_ok-Delivers_example :
    (gs : List Goroutine) × (r' : Reader) × (v : Response) × (call_ok
        (who_am_i 3)
        (reader true (feed (codes "7\n=") []))
      ≡ some (gs, r'))
    × Delivers v gs
call_ok-Delivers_example = call_ok-Delivers (who_am_i 3) (reader true (feed (codes "7\n=") [])) tt

call_error-Delivers_example :
    (gs : List Goroutine) × (r' : Reader) × (v : Response) × (call_error
        (get_marks 3)
        (reader true (feed (codes "12 0\n=") []))
      ≡ some (gs, r'))
    × (error_in v ≢ none)
    × Delivers v gs
call_error-Delivers_example =
    call_error-Delivers (get_marks 3) (reader true (feed (codes "12 0\n=") [])) tt

call_ok-Replies_example : Replies 4 (call_ok (text_number 4) (reader false (feed (codes "17") [])))
call_ok-Replies_example = call_ok-Replies (text_number 4) (reader false (feed (codes "17") [])) tt

call_error-Refuses_example :
    Refuses 4 (call_error (get_marks 4) (reader false (feed (codes "6 0\n") [])))
call_error-Refuses_example =
    call_error-Refuses (get_marks 4) (reader false (feed (codes "6 0\n") [])) tt

-- A client with one request out.
abbrev asking : KomClient
asking = record client { async_map = (0, who_am_i 5) ∷ []; next_request = 1; next_channel = 6 }

receive_round-error_example :
    (v : Response) × (r : Reader) × (error_in v ≢ none)
    × (receive_round (before asking false (response b'%' 0 (feed (codes "6 0\n") [])) [])
        ≡ some (record {
          client = without 0 asking;
          input = r;
          started = [] ++ send_and_close 5 v ∷ [];
        }))
    × (waiting (without 0 asking) 0 ≡ none)
unfolding lookup
receive_round-error_example =
    receive_round-error asking false 0 (feed (codes "6 0\n") []) [] (who_am_i 5) (omega arith) refl
      tt

receive_round-unknown_example :
    (receive_round (before asking false (response b'=' 9 (byte 10 ∷ [])) []) ≡ none)
    × (receive_round (before asking false (response b'%' 9 (byte 10 ∷ [])) []) ≡ none)
unfolding lookup
receive_round-unknown_example =
    receive_round-unknown asking false 9 (byte 10 ∷ []) [] (omega arith) refl

receive_loop_at_eof_example :
    (receive_loop (rounds_only 3) (before asking false [] [])
      ≡ some (before (get_callback 0 asking).2 false [] []))
    × (waiting (get_callback 0 asking).2 1 ≡ (if 0 == 1 then none else waiting asking 1))
receive_loop_at_eof_example = receive_loop_at_eof asking false [] 2 1

-- ===== src/Protocol/Requests/Delivery.antt =====
-- From a method of the client to what a server reads.
use komandgo.Base.{
  inl, inr, ℕ, ◌<◌, ◌^◌, ◌≡◌, refl, ap, ◌∙◌, List, [], ◌∷◌, ◌++◌, map, true, none, some, Bytes, All,
}
use komandgo.Fmt.{format_decimal}
use komandgo.Hollerith.{show, number}
use komandgo.Io.{Read, byte, reader, feed, feed-append}
use komandgo.Protocol.Client.{KomClient, conference_from_name}
use komandgo.Protocol.Client.Pending.{waiting}
use komandgo.Protocol.Client.Sending.{AlwaysMoves}
use komandgo.Protocol.Input.{read_uint32}
use komandgo.Protocol.Requests.{blanks, line}
use komandgo.Protocol.Requests.Calls.{
  ask_set_supervisor, ask_set_permitter_submitters, ask_set_super_conf, Request, call_request,
  callback_of,
}
use komandgo.Protocol.Requests.Issuing.{issue-AlwaysMoves}
use komandgo.Protocol.Requests.Messages.{
  whole, Confused, supervisor, submitters, super_conf, call_request-Confused, Argument, operand,
  protocol_message, SendsItsNames, call_request-protocol_message,
}
use komandgo.Protocol.Requests.Reading.{
  a_number, kind_of, shape, read_arguments, read_request, shape-protocol_message,
}
use komandgo.Protocol.Requests.Reading.Bits.{Legible, protocol_message-Legible}
use komandgo.Protocol.Requests.Reading.Arguments.{
  Fits, ending, read_whole, feed-blanks, read_arguments_nil, read_arguments-ending,
}

-- The number of a message and its arguments, up to the end of the line.
read_body :
    (opcode : ℕ) (args : List Argument) (rest : List Read)
    → opcode < 2 ^ 32
    → shape opcode ≡ map kind_of args
    → All Fits args
    → All Legible args
    → let (found, r1) =
        read_uint32 (reader true (feed (show (number opcode)) (ending args rest))) in
      (found ≡ opcode) × (read_arguments (shape opcode) r1 ≡ (args, reader true rest))
unfolding show
read_body opcode [] rest ho hk _ _ =
    rw (read_whole opcode 10 rest ho (inr refl), hk) (refl, read_arguments_nil (reader true rest))
read_body opcode (a ∷ more) rest ho hk h l =
    rw
      (
        feed-blanks a more rest,
        read_whole opcode b' ' (feed (show (operand a)) (ending more rest)) ho (inl refl),
        hk,
      )
      (refl, read_arguments-ending a more rest h l)

feed-line :
    (id opcode : ℕ) (args : List Argument) (rest : List Read)
    → feed (line id opcode (map operand args) ++ 10 ∷ []) rest
      ≡ feed (format_decimal id) (byte b' ' ∷ feed (show (number opcode)) (ending args rest))
unfolding line
feed-line id opcode args rest =
    feed-append (format_decimal id ++ blanks (number opcode ∷ map operand args)) (10 ∷ []) rest
    ∙ feed-append (format_decimal id) (blanks (number opcode ∷ map operand args)) (byte 10 ∷ rest)
    ∙ ap (λ xs. feed (format_decimal id) (byte b' ' ∷ xs))
        (feed-append (show (number opcode)) (blanks (map operand args)) (byte 10 ∷ rest))

read_request-line :
    (id opcode : ℕ) (args : List Argument) (rest : List Read)
    → id < 2 ^ 32
    → opcode < 2 ^ 32
    → shape opcode ≡ map kind_of args
    → All Fits args
    → All Legible args
    → read_request (reader true (feed (line id opcode (map operand args) ++ 10 ∷ []) rest))
      ≡ (id, opcode, args, reader true rest)
unfolding read_request
read_request-line id opcode args rest hi ho hk h l =
    let (same, body) = read_body opcode args rest ho hk h l in
    rw
      (
        feed-line id opcode args rest,
        read_whole id b' ' (feed (show (number opcode)) (ending args rest)) hi (inl refl),
        same,
        body,
      )
      refl

-- On a socket whose calls take a byte at least and do not fail, a method other than the three that
-- confuse their names returns, with the next channel and no error, and puts a line on the wire behind what
-- was there, and has its callback waiting under the next request number. A server reads that line as
-- this request number, the number that Protocol A gives the message, and the arguments of the method
-- in their order, and takes nothing of what follows; the numbers have to be words of 32 bits, the
-- lengths of the strings and arrays of type `int`, and a time one that the protocol can write.
pub call_request-read_request :
    (r : Request) (k : KomClient) (rest : List Read)
    → SendsItsNames r
    → All Fits (protocol_message k r).1
    → k.next_request < 2 ^ 32
    → AlwaysMoves k.socket
    → (sent : Bytes) × (k' : KomClient) × (call_request r k ≡ some (k.next_channel, none, k'))
      × (k'.socket.wire ≡ k.socket.wire ++ sent)
      × (waiting k' k.next_request ≡ some (callback_of r k.next_channel))
      × (read_request (reader true (feed sent rest))
          ≡ (k.next_request, (protocol_message k r).0, (protocol_message k r).1, reader true rest))
call_request-read_request r k rest names fit hi moves =
    let (opcode, args) = protocol_message k r in
    let (kinds, small) = shape-protocol_message r k in
    let (k', told, wire, known, _) =
      issue-AlwaysMoves (callback_of r) opcode (map operand args) k 0 moves in
    rw (call_request-protocol_message r k names) (
      line k.next_request opcode (map operand args) ++ 10 ∷ [],
      k',
      told,
      wire,
      known,
      read_request-line k.next_request opcode args rest hi small kinds fit
          (protocol_message-Legible k r),
    )

shape-Confused :
    {r : Request} {conference : Bytes} {opcode : ℕ} (k : KomClient)
    → Confused r conference opcode
    → (shape opcode ≡ a_number ∷ a_number ∷ []) × (opcode < 2 ^ 32)
shape-Confused k (supervisor conference admin) =
    shape-protocol_message (ask_set_supervisor conference admin) k
shape-Confused k (submitters conference permitted) =
    shape-protocol_message (ask_set_permitter_submitters conference permitted) k
shape-Confused k (super_conf conference permitted) =
    shape-protocol_message (ask_set_super_conf conference permitted) k

-- On a socket whose calls take a byte at least and do not fail, `asyncSetSupervisor`,
-- `asyncSetPermitterSubmitters` and `asyncSetSuperConf` return, with no error, and put a line on the wire that a server reads as
-- the conference of the first argument twice, whatever the second argument is. The number of the
-- conference and that of the request have to be words of 32 bits.
pub call_request-Confused_names :
    (k : KomClient) (rest : List Read) {r : Request} {conference : Bytes} {opcode : ℕ}
    → Confused r conference opcode
    → conference_from_name k conference < 2 ^ 32
    → k.next_request < 2 ^ 32
    → AlwaysMoves k.socket
    → let number_of = whole (conference_from_name k conference) in
      (sent : Bytes) × (k' : KomClient) × (call_request r k ≡ some (k.next_channel, none, k'))
      × (k'.socket.wire ≡ k.socket.wire ++ sent)
      × (read_request (reader true (feed sent rest))
          ≡ (k.next_request, opcode, number_of ∷ number_of ∷ [], reader true rest))
call_request-Confused_names k rest {r} {conference} {opcode} c small hi moves =
    let number_of = whole (conference_from_name k conference) in
    let args = number_of ∷ number_of ∷ [] in
    let (kinds, low) = shape-Confused k c in
    let (k', told, wire, known, _) =
      issue-AlwaysMoves (callback_of r) opcode (map operand args) k 0 moves in
    rw (call_request-Confused k c) (
      line k.next_request opcode (map operand args) ++ 10 ∷ [],
      k',
      told,
      wire,
      read_request-line k.next_request opcode args rest hi low kinds (small, (small, tt))
          (tt, (tt, tt)),
    )

-- ===== src/Protocol/Requests/Issuing.antt =====
-- What every request does to the client and to the wire.
use komandgo.Base.{
  ℕ, ◌+◌, ◌%◌, ◌^◌, ◌≡◌, refl, ◌≢◌, List, [], ◌∷◌, ◌++◌, none, some, ap, ◌∙◌, if◌then◌else◌,
  ==_refl, ne→not_==,
}
use komandgo.Hollerith.{Operand}
use komandgo.Protocol.Client.{Callback, KomClient, register_callback, send, insert}
use komandgo.Protocol.Client.Pending.{waiting, lookup-insert}
use komandgo.Protocol.Client.Sending.{AlwaysMoves, send_line-AlwaysMoves}
use komandgo.Protocol.Requests.{line, issue}

pub issue-AlwaysMoves :
    (callback : ℕ → Callback) (opcode : ℕ) (args : List Operand) (k : KomClient) (j : ℕ)
    → AlwaysMoves k.socket
    → (k' : KomClient) × (issue callback opcode args k ≡ some (k.next_channel, none, k'))
      × (k'.socket.wire ≡ k.socket.wire ++ (line k.next_request opcode args ++ 10 ∷ []))
      × (waiting k' k.next_request ≡ some (callback k.next_channel))
      × (k.next_request ≢ j → waiting k' j ≡ waiting k j)
unfolding issue register_callback send
issue-AlwaysMoves callback opcode args k j moves =
    let (w', told, wire) = send_line-AlwaysMoves (line k.next_request opcode args) k.socket moves in
    let known : (i : ℕ) → _ =
      λ i. lookup-insert i k.next_request (callback k.next_channel) k.async_map in
    (
      record {
        async_map = insert k.next_request (callback k.next_channel) k.async_map;
        next_request = (k.next_request + 1) % 2 ^ 32;
        server = k.server;
        socket = w';
        next_channel = k.next_channel + 1;
      },
      rw told refl,
      wire,
      known k.next_request
          ∙ ap (λ b. if b then some (callback k.next_channel) else waiting k k.next_request)
              (==_refl k.next_request),
      λ ne.
          known j
          ∙ ap (λ b. if b then some (callback k.next_channel) else waiting k j)
              (ne→not_== k.next_request j ne),
    )

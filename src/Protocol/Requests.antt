-- ===== src/Protocol/Requests.antt =====
-- pkg/protocol/client.go: a request, as every method `async...` makes it. The methods are in the
-- modules below, by what they are about.
pub mod Sessions
pub mod Conferences
pub mod Persons
pub mod Texts
pub mod Issuing
pub mod Calls
pub mod Messages
pub mod Reading
pub mod Delivery
use mathlib.Core.Option
use komandgo.Base.{ℕ, ◌+◌, ◌≡◌, refl, List, [], ◌∷◌, ◌++◌, Option, none, Bytes, codes}
use komandgo.Hollerith.{Operand, text, number, show}
use komandgo.Io.{GoError, writer}
use komandgo.Protocol.Client.{Callback, KomClient, generic, register_callback, send, new_client}
use komandgo.Protocol.Server.{new_server}

-- What the verbs of a format stand for, a blank before each.
abbrev pub blanks : List Operand → Bytes
blanks [] = []
blanks (a ∷ args) = b' ' ∷ (show a ++ blanks args)

-- `fmt.Sprintf` of a request: its number, the number of the message, which is written out in the
-- format, and the arguments, with a blank before each.
unfoldable pub line : ℕ → ℕ → List Operand → Bytes
unfolding show
line id opcode args = show (number id) ++ blanks (number opcode ∷ args)

-- What a method returns, the channel and the error, and the client; `none` where it never returns.
abbrev pub Issued : Type 0
Issued = Option (ℕ × Option GoError × KomClient)

-- `make` of a channel, the registration of the callback for it, and the sending of the line.
unfoldable pub issue : (ℕ → Callback) → ℕ → List Operand → KomClient → Issued
issue callback opcode args k =
    let rv = k.next_channel in
    let (req_id, k1) = register_callback (callback rv) (record k { next_channel = rv + 1 }) in
    Option.map (λ (err, k2). (rv, err, k2)) (send (line req_id opcode args) k1)

line_runs : line 7 2 (number 6 ∷ text (codes "1Hx") ∷ []) ≡ codes "7 2 6 1Hx"
unfolding line show
line_runs = refl

-- ===== src/Protocol/Response.antt =====
-- pkg/protocol/client.go: what a callback sends on its channel, and the goroutines that it starts.
use komandgo.Base.{ℕ, List, [], ◌∷◌, Option, some, Bytes}
use komandgo.Io.{GoError, Reader}
use komandgo.Types.Time.{Time}
use komandgo.Types.Records.{Mark, ConfZInfo, VersionInfo, Person, UConference}

-- The values of the response types, with their fields in order.
pub data Response : Type 0 where
  generic_response : ℕ → ℕ → Option GoError → Response
  get_marks_response : List Mark → Option GoError → Response
  get_text_response : Bytes → Option GoError → Response
  z_conf_array_response : List ConfZInfo → Option GoError → Response
  version_info_response : VersionInfo → Option GoError → Response
  time_response : Time → Response
  person_stat_response : Person → Option GoError → Response
  unread_confs_response : List ℕ → Option GoError → Response
  who_am_i_response : ℕ → Option GoError → Response
  text_response : ℕ → Option GoError → Response
  string_response : Bytes → Option GoError → Response
  u_conf_response : UConference → Option GoError → Response
  query_async_response : List ℕ → Option GoError → Response

-- What a goroutine does, in order: `c <- v` and `close(c)`. Where `v` is a variable that its function
-- still changes, the value that is sent is one of those that it has from then on, which are listed.
pub data Action : Type 0 where
  sends : ℕ → List Response → Action
  closes : ℕ → Action

abbrev pub Goroutine : Type 0
Goroutine = List Action

-- `go func() { c <- v; close(c) }()`
abbrev pub send_and_close : ℕ → Response → Goroutine
send_and_close c v = sends c (v ∷ []) ∷ closes c ∷ []

-- What a callback comes to: the goroutines that it has started, and what it leaves of the input.
-- `none` is a panic.
abbrev pub Handled : Type 0
Handled = Option (List Goroutine × Reader)

abbrev pub answer : ℕ → Response → Reader → Handled
answer c v r = some (send_and_close c v ∷ [], r)

-- ===== src/Protocol/Handlers/Async.antt =====
-- `queryAsyncCallback.OK`, with and without an error of the array that it reads.
use komandgo.Base.{ℕ, ◌≡◌, refl, List, [], ◌∷◌, ◌++◌, none, some}
use komandgo.Io.{GoError, Reader}
use komandgo.Protocol.Channels.{going, crashed, run, awaiting}
use komandgo.Protocol.Channels.Replies.{run-two}
use komandgo.Protocol.Handlers.Replies.{Replies}
use komandgo.Protocol.Handlers.Success.{query_async_ok}
use komandgo.Protocol.Response.{Goroutine, query_async_response, send_and_close}
use komandgo.Types.Arrays.{read_uint32_array}

-- The program crashes when the goroutines run with one caller that waits: after any schedule, some
-- more turns lead to a panic.
abbrev pub Crashes : List Goroutine → Type 0
Crashes gs =
    (es : List (ℕ × ℕ)) → (more : List (ℕ × ℕ)) × (run (es ++ more) (going (awaiting gs)) ≡ crashed)

-- Where `ReadUInt32Array` gives no error, `queryAsyncCallback.OK` starts one goroutine, which sends
-- one response on its channel and closes it. Where it gives an error, the goroutines that are started
-- crash the program: whatever turns they and a caller have taken, more turns lead to a panic.
pub query_async_ok_lem :
    (c : ℕ) (r : Reader)
    → ((read_uint32_array r).1 ≡ none → Replies c (query_async_ok c r))
      × ((e : GoError)
          → (read_uint32_array r).1 ≡ some e
          → (gs : List Goroutine) × (r' : Reader) × (query_async_ok c r ≡ some (gs, r'))
            × Crashes gs)
unfolding query_async_ok
query_async_ok_lem c r =
    let (accepted, err, r1) = read_uint32_array r in
    let last = query_async_response accepted none in
    (
      λ fine. (last, r1, rw (fine, query_async_ok) refl),
      λ e broke.
          let told = query_async_response [] (some e) in
          (
            send_and_close c told ∷ send_and_close c last ∷ [],
            r1,
            rw (broke, query_async_ok) refl,
            λ es. (_, run-two c told last es),
          ),
    )

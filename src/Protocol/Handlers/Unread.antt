-- ===== src/Protocol/Handlers/Unread.antt =====
-- `unreadConfsCallback.OK` on a list that a server sends.
use komandgo.Base.{ℕ, ◌<◌, ◌^◌, ◌≡◌, refl, ap, Bool, List, [], ◌∷◌, none, codes, length, All}
use komandgo.Io.{Read, byte, reader, feed}
use komandgo.Protocol.Handlers.Success.{unread_confs_ok, racing}
use komandgo.Protocol.Input.Lines.{skip_to_newline-feed}
use komandgo.Protocol.Lists.Parts.{parts, split-list}
use komandgo.Protocol.Lists.Unread.{unread_loop-parts, skip_braces-parts}
use komandgo.Protocol.Response.{unread_confs_response, answer}
use komandgo.Types.Arrays.{uint32_array}
use komandgo.Protocol.Handlers.Braced.{read_count, read_braced}

-- From an array of conference numbers and the newline behind it, `unreadConfsCallback.OK` makes one
-- response with just these numbers and no error, sent on its channel, which is then closed; the whole
-- line is taken and nothing behind it. The numbers have to be words of 16 bits.
pub unread_confs_ok-uint32_array :
    (c : ℕ) (ns : List ℕ) (q : Bool) (rest : List Read)
    → All (λ n. n < 2 ^ 16) ns
    → length ns < 2 ^ 32
    → unread_confs_ok c (reader q (feed (uint32_array ns) (byte 10 ∷ rest)))
      ≡ answer c (unread_confs_response ns none) (reader q rest)
unfolding unread_confs_ok racing uint32_array
unread_confs_ok-uint32_array c ns q rest h hl =
    let list = codes "{" ∷ parts ns in
    rw (read_count (length ns) ns q (byte 10 ∷ rest) hl) (
      rw (read_braced ns q (byte 10 ∷ rest)) (
        rw (split-list ns) (
          rw (skip_braces-parts (length (parts ns)) ns, unread_loop-parts ns list 1 [] refl h)
            (ap (answer c (unread_confs_response ns none)) (skip_to_newline-feed [] q rest tt)))))

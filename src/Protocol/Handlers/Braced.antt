-- ===== src/Protocol/Handlers/Braced.antt =====
-- Reading a count and a list of numbers between braces.
use komandgo.Base.{ℕ, ◌<◌, ◌^◌, ◌≡◌, ap, ◌∙◌, Bool, List, ◌∷◌, ◌++◌, none, Bytes, codes, arith}
use komandgo.Fmt.{format_decimal}
use komandgo.Io.{Read, byte, reader, feed, feed-append}
use komandgo.Protocol.Input.{read_uint32, read_delimited_list}
use komandgo.Protocol.Input.Lines.{read_delimited_list-utils}
use komandgo.Protocol.Input.Numbers.{by_byte, read_uint32-format}
use komandgo.Protocol.Lists.Parts.{entries-NoBrace}
use komandgo.Types.Arrays.{entries}
use komandgo.Utils.Reading.{read_delimited_list-feed}

-- The text between the braces of an array, with them.
abbrev pub braced : List ℕ → Bytes
braced ns = codes "{ " ++ (entries ns ++ codes "}")

-- A count and a list at the head of the input.
pub read_count :
    (n : ℕ) (ns : List ℕ) (q : Bool) (rest : List Read)
    → n < 2 ^ 32
    → read_uint32 (reader q (feed (format_decimal n ++ b' ' ∷ braced ns) rest))
      ≡ (n, reader q (feed (braced ns) rest))
read_count n ns q rest h = rw (feed-append (format_decimal n) (b' ' ∷ braced ns) rest) (
    read_uint32-format n q (by_byte b' ' (feed (braced ns) rest) (omega arith))
    ∙ ap (λ m. (m, reader q (feed (braced ns) rest))) (omega (arith, h)))

pub read_braced :
    (ns : List ℕ) (q : Bool) (rest : List Read)
    → read_delimited_list b'{' b'}' (reader q (feed (braced ns) rest))
      ≡ (braced ns, none, reader q rest)
read_braced ns q rest = rw (feed-append (codes "{ " ++ entries ns) (codes "}") rest) (
    read_delimited_list-utils b'{' b'}'
      (reader q (feed (codes "{ " ++ entries ns) (byte b'}' ∷ rest)))
    ∙ read_delimited_list-feed b'{' b'}' (b' ' ∷ entries ns) q rest
        (omega arith, entries-NoBrace ns))

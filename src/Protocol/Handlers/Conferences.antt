-- ===== src/Protocol/Handlers/Conferences.antt =====
-- `zConfArrayResponseCallback.OK` on a list of conferences that a server sends.
use komandgo.Base.{
  ℕ, ◌<◌, ◌^◌, ◌≡◌, ◌≢◌, refl, sym, ap, subst, ◌%◌, ◌∙◌, List, [], ◌∷◌, ◌++◌, Bool, none, some,
  Bytes, length, All, All-append, arith, append_assoc,
}
use komandgo.Fmt.{format_decimal}
use komandgo.Fmt.Decimal.{format-IsDigit}
use komandgo.Hollerith.{text, sprint}
use komandgo.Io.{Read, reader, feed, feed-append}
use komandgo.Protocol.Handlers.Success.{z_conf_array_ok}
use komandgo.Protocol.Input.{read_delimited_list}
use komandgo.Protocol.Input.Lines.{read_delimited_list-utils}
use komandgo.Protocol.Input.Numbers.{by_byte, read_uint32-format}
use komandgo.Protocol.Lists.Conferences.{IsConf, conf_text, confs_text, confs_loop-list}
use komandgo.Protocol.Lists.Parts.{digits-NoBrace}
use komandgo.Protocol.Response.{sends, z_conf_array_response}
use komandgo.Types.Flags.{plain, bit_field}
use komandgo.Types.Flags.RoundTrip.{bit_field-NoBrace}
use komandgo.Types.Records.{ConfZInfo}
use komandgo.Utils
use komandgo.Utils.Reading.{read_delimited_list-feed}

abbrev pub NoBrace : Bytes → Type 0
NoBrace = All (λ c. c ≢ b'}')

sprint-NoBrace : (s : Bytes) → NoBrace s → NoBrace (sprint (text s))
unfolding sprint
sprint-NoBrace s h =
    All-append (λ c. c ≢ b'}') (format_decimal (length s)) (b'H' ∷ s)
      (digits-NoBrace (format_decimal (length s)) (format-IsDigit (length s))) (omega arith, h)

conf_text-append : (z : ConfZInfo) (a b : Bytes) → conf_text z a ++ b ≡ conf_text z (a ++ b)
conf_text-append z a b =
    let named = sprint (text z.name) in
    let kind = bit_field (plain z.type) in
    let digits = format_decimal z.conf_no in
    append_assoc named (b' ' ∷ (kind ++ (b' ' ∷ (digits ++ a)))) b
    ∙ ap (λ u. named ++ (b' ' ∷ u)) (append_assoc kind (b' ' ∷ (digits ++ a)) b)
    ∙ ap (λ u. named ++ (b' ' ∷ (kind ++ (b' ' ∷ u)))) (append_assoc digits a b)

conf_text-NoBrace :
    (z : ConfZInfo) (rest : Bytes) → NoBrace z.name → NoBrace rest → NoBrace (conf_text z rest)
conf_text-NoBrace z rest h hr =
    All-append (λ c. c ≢ b'}') (sprint (text z.name)) _ (sprint-NoBrace z.name h)
      (
        omega arith,
        All-append (λ c. c ≢ b'}') (bit_field (plain z.type)) _ (bit_field-NoBrace z.type)
            (
              omega arith,
              All-append (λ c. c ≢ b'}') (format_decimal z.conf_no) rest
                  (digits-NoBrace (format_decimal z.conf_no) (format-IsDigit z.conf_no)) hr,
            ),
      )

-- A list whose names have no brace in them has only the one at its end.
body :
    (zs : List ConfZInfo)
    → All (λ z. NoBrace z.name) zs
    → (pre : Bytes) × (confs_text zs ≡ pre ++ b'}' ∷ []) × NoBrace pre
body [] h = (b' ' ∷ [], refl, (omega arith, tt))
body (z ∷ zs) (hz, hs) =
    let (pre, e, n) = body zs hs in
    (
      b' ' ∷ conf_text z pre,
      ap (λ u. b' ' ∷ conf_text z u) e ∙ ap (◌∷◌ (b' ')) (sym (conf_text-append z pre (b'}' ∷ []))),
      (omega arith, conf_text-NoBrace z pre hz n),
    )

read_confs :
    (zs : List ConfZInfo) (q : Bool) (rest : List Read)
    → All (λ z. NoBrace z.name) zs
    → read_delimited_list b'{' b'}' (reader q (feed (b'{' ∷ confs_text zs) rest))
      ≡ (b'{' ∷ confs_text zs, none, reader q rest)
read_confs zs q rest h =
    let (pre, e, n) = body zs h in
    read_delimited_list-utils b'{' b'}' (reader q (feed (b'{' ∷ confs_text zs) rest))
    ∙ subst
        (λ u.
          Utils.read_delimited_list b'{' b'}' (reader q (feed (b'{' ∷ u) rest))
          ≡ (b'{' ∷ u, none, reader q rest))
        (sym e)
        (rw (feed-append pre (b'}' ∷ []) rest) (read_delimited_list-feed b'{' b'}' pre q rest n))

-- From a count, the list of that many conferences, and what follows, the callback sends one response
-- with just these conferences and no error, and takes nothing of what follows. The channel is not
-- closed. The numbers have to be words of 16 bits, and no name may hold a closing brace.
pub z_conf_array_ok-confs_text :
    (c : ℕ) (zs : List ConfZInfo) (q : Bool) (rest : List Read)
    → All IsConf zs
    → All (λ z. NoBrace z.name) zs
    → length zs < 2 ^ 32
    → z_conf_array_ok c
        (reader q (feed (format_decimal (length zs) ++ b' ' ∷ b'{' ∷ confs_text zs) rest))
      ≡ some ((sends c (z_conf_array_response zs none ∷ []) ∷ []) ∷ [], reader q rest)
unfolding z_conf_array_ok
z_conf_array_ok-confs_text c zs q rest h hb hl =
    let list = b'{' ∷ confs_text zs in
    rw (feed-append (format_decimal (length zs)) (b' ' ∷ list) rest) (
      rw (read_uint32-format (length zs) q (by_byte b' ' (feed list rest) (omega arith))) (
        let small : length zs % 2 ^ 32 ≡ length zs = omega (arith, hl) in
        rw (small, read_confs zs q rest hb) (rw (confs_loop-list zs h) refl)))

-- ===== src/Protocol/Lists.antt =====
-- pkg/protocol/client.go: taking apart the lists of marks, of conference numbers and of conferences
-- that the server sends, as the callbacks do after they have read them.
pub mod Parts
pub mod Marks
pub mod Unread
pub mod Conferences
use komandgo.Base.{
  ℕ, zero, suc, ◌+◌, ◌-◌, ◌*◌, ◌%◌, ◌^◌, ◌≡◌, refl, Bool, true, false, ◌&&◌, List, [], ◌∷◌, ◌++◌,
  Option, none, some, Bytes, codes, length, get_elem?, leb, ◌==◌, if◌then◌else◌,
}
use komandgo.Hollerith.{from_string}
use komandgo.Io.{GoError, not_a_number}
use komandgo.Protocol.Response.{Response, unread_confs_response}
use komandgo.Protocol.Server.{same_bytes}
use komandgo.Types.Flags.{parse_conf_type}
use komandgo.Types.Records.{Mark, ConfZInfo}
use komandgo.Utils.{read_uint32_from_string}

abbrev extend : ℕ → List Bytes → List Bytes
extend c [] = (c ∷ []) ∷ []
extend c (p ∷ ps) = (c ∷ p) ∷ ps

-- `strings.Split(s, " ")`
unfoldable pub split : Bytes → List Bytes
split [] = [] ∷ []
split (c ∷ s) = let rest = split s in if c == b' ' then [] ∷ rest else extend c rest

all_digits : ℕ → Bytes → Option ℕ
all_digits n [] = some n
all_digits n (c ∷ s) =
    let rest = all_digits (n * 10 + (c - b'0')) s in
    if leb b'0' c then (if leb c b'9' then rest else none) else none

-- A number within `limit`, spelled by one digit or more.
pub magnitude : ℕ → Bytes → Option ℕ
magnitude limit [] = none
magnitude limit (c ∷ s) = elim (all_digits 0 (c ∷ s)) [
  | none ↦ none
  | some n ↦ if leb n limit then some n else none
]

pub negated : Option ℕ → Option ℕ
negated none = none
negated (some n) = some ((2 ^ 64 - n) % 2 ^ 64)

-- `strconv.Atoi`: the 64 bits of the `int`, or `none` for an error.
unfoldable pub atoi : Bytes → Option ℕ
atoi [] = none
atoi (c ∷ s) =
    if c == b'-'
    then negated (magnitude (2 ^ 63) s)
    else if c == b'+'
    then magnitude (2 ^ 63 - 1) s
    else magnitude (2 ^ 63 - 1) (c ∷ s)

-- What `strconv.ParseUint` makes of digits: it stops at the first byte where the number has outgrown
-- 64 bits, whatever follows, or that is no digit.
data Unsigned : Type 0 where
  exact : ℕ → Unsigned
  too_large : Unsigned
  no_number : Unsigned

parse_digits : ℕ → Bytes → Unsigned
parse_digits n [] = exact n
parse_digits n (c ∷ s) =
    let m = n * 10 + (c - b'0') in
    let rest = parse_digits m s in
    if leb b'0' c && leb c b'9' then if leb (2 ^ 64) m then too_large else rest else no_number

parse_unsigned : Bytes → Unsigned
parse_unsigned [] = no_number
parse_unsigned (c ∷ s) = parse_digits 0 (c ∷ s)

abbrev nearest : ℕ → Unsigned → ℕ
nearest limit (exact n) = limit
nearest limit too_large = limit
nearest limit no_number = 0

-- The number that `strconv.Atoi` returns beside an error, in the 64 bits of the `int`: the nearest one
-- where the text spells a number out of range, and 0 where it spells none.
pub atoi_on_error : Bytes → ℕ
unfolding parse_digits parse_unsigned
atoi_on_error [] = 0
atoi_on_error (c ∷ s) =
    if c == b'-'
    then nearest (2 ^ 63) (parse_unsigned s)
    else if c == b'+'
    then nearest (2 ^ 63 - 1) (parse_unsigned s)
    else nearest (2 ^ 63 - 1) (parse_unsigned (c ∷ s))

-- The loop of `getMarksCallback.OK`, for `n` more marks: the marks before an error, and the error.
-- The outer `none` is a panic, at an index out of range.
unfoldable pub marks_loop : ℕ → List Bytes → ℕ → List Mark → Option (List Mark × Option GoError)
marks_loop zero tmp pos arr = some (arr, none)
marks_loop (suc n) tmp pos arr = elim (get_elem? tmp pos) [
  | none ↦ none
  | some s ↦ elim (atoi s) [
    | none ↦ some (arr, some (not_a_number s))
    | some text_no ↦ elim (get_elem? tmp (suc pos)) [
      | none ↦ none
      | some t ↦ elim (atoi t) [
        | none ↦ some (arr, some (not_a_number t))
        | some kind ↦
            marks_loop n tmp (suc (suc pos))
              (arr ++ record { text_no = text_no % 2 ^ 32; type = kind % 2 ^ 8 } ∷ [])
      ]
    ]
  ]
]

-- `if tmp[strPos] == "{" { strPos++ }`
unfoldable pub marks_start : List Bytes → ℕ
unfolding same_bytes
marks_start tmp = elim (get_elem? tmp 0) [
  | none ↦ 0
  | some s ↦ if same_bytes s (codes "{") then 1 else 0
]

-- `for tmp[strPos] == "{" { strPos++ }`; `none` is a panic.
unfoldable pub skip_braces : ℕ → List Bytes → ℕ → Option ℕ
unfolding same_bytes
skip_braces zero tmp pos = none
skip_braces (suc fuel) tmp pos =
    let more = skip_braces fuel tmp (suc pos) in
    elim (get_elem? tmp pos) [
      | none ↦ none
      | some s ↦ if same_bytes s (codes "{") then more else some pos
    ]

-- The loop of `unreadConfsCallback.OK`, for `n` more numbers. It goes on after an error, with the
-- number that came with it. It gives the values that `rv` has, one for each assignment to a field from
-- the first error on, and whether a goroutine is started then; the last one is at the end. It keeps
-- `err`, the error that `rv` holds.
unfoldable pub unread_loop :
    ℕ
    → List Bytes
    → ℕ
    → List ℕ
    → Option GoError
    → List (Bool × Response)
    → Option (List (Bool × Response))
unread_loop zero tmp pos arr err out = some (out ++ (true, unread_confs_response arr err) ∷ [])
unread_loop (suc n) tmp pos arr err out = elim (get_elem? tmp pos) [
  | none ↦ none
  | some s ↦ elim (atoi s) [
    | none ↦
        unread_loop n tmp (suc pos) (arr ++ (atoi_on_error s % 2 ^ 16) ∷ []) (some (not_a_number s))
          (out
            ++ (false, unread_confs_response arr err)
              ∷ (true, unread_confs_response arr (some (not_a_number s)))
              ∷ [])
    | some v ↦ unread_loop n tmp (suc pos) (arr ++ (v % 2 ^ 16) ∷ []) err out
  ]
]

-- `s[i : i+n]`, taken for a log entry alone: it panics where the text is too short.
abbrev fits : Bytes → ℕ → ℕ → Bool
fits s i n = leb (i + n) (length s)

-- A round of the loop of `zConfArrayResponseCallback.OK`: a conference, and the index behind it.
-- `none` is a panic.
unfoldable pub read_conf : Bytes → ℕ → Option (ConfZInfo × ℕ)
read_conf ar offset =
    if fits ar offset 10
    then elim (from_string ar offset) [
      | none ↦ none
      | some (name, next) ↦
          if fits ar next 6
          then elim (parse_conf_type ar (next + 1)) [
            | none ↦ none
            | some conf_type ↦
                if fits ar (next + 5) 2
                then (let (tmp, end) = read_uint32_from_string ar (next + 5) in
                    some (record { name = name; type = conf_type; conf_no = tmp % 2 ^ 16 }, end))
                else none
          ]
          else none
    ]
    else none

unfoldable pub confs_loop : ℕ → Bytes → ℕ → List ConfZInfo → Option (List ConfZInfo)
confs_loop zero ar offset rv = some rv
confs_loop (suc items) ar offset rv = elim (read_conf ar offset) [
  | none ↦ none
  | some (conf, next) ↦ confs_loop items ar next (rv ++ conf ∷ [])
]

split_runs : split (codes "{ 13 4 }") ≡ codes "{" ∷ codes "13" ∷ codes "4" ∷ codes "}" ∷ []
unfolding split
split_runs = refl

atoi_negative : atoi (codes "-1") ≡ some (2 ^ 64 - 1)
unfolding atoi magnitude all_digits negated
atoi_negative = refl

-- A number that has outgrown 64 bits hides the brace behind it.
atoi_hides_brace : atoi_on_error (codes "99999999999999999999}") ≡ 2 ^ 63 - 1
unfolding atoi_on_error
atoi_hides_brace = refl

atoi_sees_brace : atoi_on_error (codes "9999999999999999999}") ≡ 0
unfolding atoi_on_error
atoi_sees_brace = refl

unread_races :
    unread_loop 2 (codes "x" ∷ codes "7" ∷ []) 0 [] none []
    ≡ some (
        (false, unread_confs_response [] none)
        ∷ (true, unread_confs_response [] (some (not_a_number (codes "x"))))
        ∷ (true, unread_confs_response (0 ∷ 7 ∷ []) (some (not_a_number (codes "x"))))
        ∷ [])
unfolding unread_loop atoi atoi_on_error magnitude all_digits
unread_races = refl

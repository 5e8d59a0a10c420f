-- ===== src/Protocol/Lists/Conferences.antt =====
-- The list of conferences that `zConfArrayResponseCallback.OK` takes apart.
use komandgo.Base.{
  ℕ, suc, ◌+◌, ◌%◌, ◌^◌, ◌<◌, ◌≤◌, ◌≡◌, refl, sym, ap, subst, ◌∙◌, true, List, [], ◌∷◌, ◌++◌, some,
  Bytes, codes, length, length-append, drop, All, arith, append_assoc, append-nil,
}
use komandgo.Fmt.{format_decimal}
use komandgo.Fmt.Decimal.{IsDigit, value, value-format, format-IsDigit, format-head}
use komandgo.Hollerith.{text, sprint, counted, show, from_string}
use komandgo.Hollerith.Slicing.{IsFiller, from_string-sprint}
use komandgo.Protocol.Lists.{fits, read_conf, confs_loop}
use komandgo.Types.Flags.{ConfType, plain, bit_field, parse_conf_type}
use komandgo.Types.Flags.RoundTrip.{parse_conf_type-bit_field, length-bit_field}
use komandgo.Types.Records.{ConfZInfo}
use komandgo.Utils.{read_uint32_from_string}
use komandgo.Utils.Numbers.{Stops, get_elem?-drop, length-drop, read_uint32_from_string-digits}

-- An entry of the list, with what follows: a name, a type and a number.
abbrev pub conf_text : ConfZInfo → Bytes → Bytes
conf_text z rest =
    sprint (text z.name)
    ++ (b' ' ∷ (bit_field (plain z.type) ++ (b' ' ∷ (format_decimal z.conf_no ++ rest))))

-- What an entry can hold.
abbrev pub IsConf : ConfZInfo → Type 0
IsConf z = (length z.name < 2 ^ 63) × (z.conf_no < 2 ^ 16)

drop_past : (s : Bytes) (i : ℕ) (a b : Bytes) → drop i s ≡ a ++ b → drop (i + length a) s ≡ b
drop_past s i [] b h = ap (λ n. drop n s) (omega arith) ∙ h
drop_past s i (x ∷ a) b h =
    let (_, h1) = get_elem?-drop s i x (a ++ b) h in
    ap (λ n. drop n s) (omega arith) ∙ drop_past s (suc i) a b h1

fits-length :
    (s : Bytes) (i n : ℕ) (rest : Bytes)
    → drop i s ≡ rest
    → n ≤ length rest
    → 0 < n
    → fits s i n ≡ true
fits-length s i n rest h le pos = ground (arith, length-drop s i, ap length h, le, pos)

length-format : (n : ℕ) → 1 ≤ length (format_decimal n)
length-format n = let (c, ds, e, _) = format-head n in rw e (omega arith)

length-sprint : (s : Bytes) → 2 ≤ length (sprint (text s))
unfolding sprint counted show
length-sprint s =
    omega (arith, length-format (length s), length-append (format_decimal (length s)) (b'H' ∷ s))

number_from :
    (s : Bytes) (i n : ℕ) (rest : Bytes)
    → drop i s ≡ b' ' ∷ (format_decimal n ++ rest)
    → n < 2 ^ 32
    → Stops rest
    → read_uint32_from_string s i ≡ (n, i + 1 + length (format_decimal n))
number_from s i n rest h small stop =
    let (c, ds, e, _) = format-head n in
    let v : value 0 (c ∷ ds) ≡ n = ap (value 0) (sym e) ∙ value-format n in
    let l : length (format_decimal n) ≡ suc (length ds) = ap length e in
    read_uint32_from_string-digits s i (b' ' ∷ []) c ds rest (h ∙ ap (λ ds. b' ' ∷ (ds ++ rest)) e)
      (omega arith, tt) (subst (All IsDigit) e (format-IsDigit n)) stop
    ∙ (λ j. (found v j, place l j))
  where
    found : {m : ℕ} → m ≡ n → m % 2 ^ 32 ≡ n
    found same = omega (arith, same, small)

    place : {k m : ℕ} → k ≡ suc m → i + 1 + suc m ≡ i + 1 + k
    place same = omega (arith, same)

read_conf_steps :
    (s : Bytes) (i : ℕ) (name : Bytes) (next : ℕ) (type : ConfType) (n : ℕ) {end : ℕ}
    → fits s i 10 ≡ true
    → from_string s i ≡ some (name, next)
    → fits s next 6 ≡ true
    → parse_conf_type s (next + 1) ≡ some type
    → fits s (next + 5) 2 ≡ true
    → read_uint32_from_string s (next + 5) ≡ (n, end)
    → read_conf s i ≡ some (record { name = name; type = type; conf_no = n % 2 ^ 16 }, end)
unfolding read_conf
read_conf_steps s i name next type n f1 f2 f3 f4 f5 f6 =
    rw f1 (rw f2 (rw f3 (rw f4 (rw f5 (rw f6 refl)))))

-- A round of the loop reads an entry behind a byte or more that are neither digits nor an `H`.
read_conf-conf_text :
    (s : Bytes) (i x : ℕ) (junk : Bytes) (z : ConfZInfo) (rest : Bytes)
    → drop i s ≡ (x ∷ junk) ++ conf_text z rest
    → All IsFiller (x ∷ junk)
    → IsConf z
    → Stops rest
    → (next : ℕ) × (read_conf s i ≡ some (z, next)) × (drop next s ≡ rest)
read_conf-conf_text s i x junk z rest h hj (hl, hn) stop =
    let number_part = format_decimal z.conf_no ++ rest in
    let type_part = bit_field (plain z.type) ++ (b' ' ∷ number_part) in
    let named = sprint (text z.name) in
    let next = i + suc (length junk) + length named in
    let d1 = drop_past s i (x ∷ junk) (conf_text z rest) h in
    let d2 = drop_past s (i + suc (length junk)) named (b' ' ∷ type_part) d1 in
    let d3 = drop_past s next (b' ' ∷ []) type_part d2 in
    let d4 = drop_past s (next + 1) (bit_field (plain z.type)) (b' ' ∷ number_part) d3 in
    let d5 : drop (next + 5) s ≡ b' ' ∷ number_part =
      ap (λ n. drop n s) (omega (arith, length-bit_field z.type)) ∙ d4 in
    let d6 = drop_past s (next + 5) (b' ' ∷ format_decimal z.conf_no) rest d5 in
    let l2 = length-append named (b' ' ∷ type_part) in
    let l3 = length-append (bit_field (plain z.type)) (b' ' ∷ number_part) in
    let l4 = length-append (format_decimal z.conf_no) rest in
    let l5 = length-append junk (conf_text z rest) in
    let some_digit = length-format z.conf_no in
    let four = length-bit_field z.type in
    let two = length-sprint z.name in
    let same : z.conf_no % 2 ^ 16 ≡ z.conf_no = omega (arith, hn) in
    (
      next + 5 + 1 + length (format_decimal z.conf_no),
      read_conf_steps s i z.name next z.type z.conf_no
            (fits-length s i 10 ((x ∷ junk) ++ conf_text z rest) h
              (omega (arith, l2, l3, l4, l5, some_digit, four, two)) (omega arith))
            (from_string-sprint s i (x ∷ junk) z.name (b' ' ∷ type_part) h hj hl)
            (fits-length s next 6 (b' ' ∷ type_part) d2 (omega (arith, l3, l4, some_digit, four))
              (omega arith))
            (parse_conf_type-bit_field z.type s (next + 1) (b' ' ∷ number_part) d3)
            (fits-length s (next + 5) 2 (b' ' ∷ number_part) d5 (omega (arith, l4, some_digit))
              (omega arith))
            (number_from s (next + 5) z.conf_no rest d5 (omega (arith, hn)) stop)
          ∙ (λ j. some (
            record { name = z.name; type = z.type; conf_no = same j },
            next + 5 + 1 + length (format_decimal z.conf_no),
          )),
      ap (λ n. drop n s) (omega arith) ∙ d6,
    )

-- The entries of a list, a blank behind each but the last, and the brace at the end.
abbrev pub confs_text : List ConfZInfo → Bytes
confs_text [] = codes " }"
confs_text (z ∷ zs) = b' ' ∷ conf_text z (confs_text zs)

confs_text-Stops : (zs : List ConfZInfo) → Stops (confs_text zs)
confs_text-Stops [] = omega arith
confs_text-Stops (z ∷ zs) = omega arith

pub confs_loop-confs_text :
    (zs : List ConfZInfo) (s : Bytes) (i : ℕ) (rv : List ConfZInfo)
    → drop i s ≡ confs_text zs
    → All IsConf zs
    → confs_loop (length zs) s i rv ≡ some (rv ++ zs)
unfolding confs_loop
confs_loop-confs_text [] s i rv h _ = ap some (sym (append-nil rv))
confs_loop-confs_text (z ∷ zs) s i rv h (hz, hs) =
    let (next, e, d) =
      read_conf-conf_text s i b' ' [] z (confs_text zs) h ((omega arith, omega arith), tt) hz
        (confs_text-Stops zs) in
    rw (e, confs_loop)
      (confs_loop-confs_text zs s next (rv ++ z ∷ []) d hs ∙ ap some (append_assoc rv (z ∷ []) zs))

-- The loop reads a whole list back, from the brace at its start.
pub confs_loop-list :
    (zs : List ConfZInfo)
    → All IsConf zs
    → confs_loop (length zs) (b'{' ∷ confs_text zs) 0 [] ≡ some zs
unfolding confs_loop
confs_loop-list [] _ = refl
confs_loop-list (z ∷ zs) (hz, hs) =
    let (next, e, d) =
      read_conf-conf_text (b'{' ∷ confs_text (z ∷ zs)) 0 b'{' (b' ' ∷ []) z (confs_text zs) refl
        ((omega arith, omega arith), ((omega arith, omega arith), tt)) hz (confs_text-Stops zs) in
    rw (e, confs_loop) (confs_loop-confs_text zs (b'{' ∷ confs_text (z ∷ zs)) next (z ∷ []) d hs)

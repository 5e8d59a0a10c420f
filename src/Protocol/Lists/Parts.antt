-- ===== src/Protocol/Lists/Parts.antt =====
-- The parts that `strings.Split` makes of a list of numbers, and what `strconv.Atoi` makes of each.
use komandgo.Base.{
  ℕ, ◌+◌, ◌-◌, ◌*◌, ◌^◌, ◌<◌, ◌≤◌, ◌≡◌, ◌≢◌, refl, sym, ap, subst, ◌∙◌, List, [], ◌∷◌, ◌++◌, map,
  some, Bytes, codes, All, All-append, arith, append_assoc,
}
use komandgo.Fmt.{format_decimal}
use komandgo.Fmt.Decimal.{IsDigit, value, value-format, format-IsDigit, format-head}
use komandgo.Protocol.Lists.{split, atoi, all_digits, magnitude}
use komandgo.Types.Arrays.{entries}

abbrev NoBlank : Bytes → Type 0
NoBlank = All (λ c. c ≢ b' ')

split-word : (w s : Bytes) → NoBlank w → split (w ++ b' ' ∷ s) ≡ w ∷ split s
unfolding split
split-word [] s h = refl
split-word (c ∷ w) s (hc, hw) = ground (arith, split-word w s hw, hc)

split_last : (w : Bytes) → NoBlank w → split w ≡ w ∷ []
unfolding split
split_last [] h = refl
split_last (c ∷ w) (hc, hw) = ground (arith, split_last w hw, hc)

digits-NoBlank : (ds : Bytes) → All IsDigit ds → NoBlank ds
digits-NoBlank [] h = tt
digits-NoBlank (d ∷ ds) (hd, h) = (omega (arith, hd), digits-NoBlank ds h)

pub digits-NoBrace : (ds : Bytes) → All IsDigit ds → All (λ c. c ≢ b'}') ds
digits-NoBrace [] h = tt
digits-NoBrace (d ∷ ds) (hd, h) = (omega (arith, hd), digits-NoBrace ds h)

-- No brace stands between the numbers of a list.
pub entries-NoBrace : (ns : List ℕ) → All (λ c. c ≢ b'}') (entries ns)
unfolding entries
entries-NoBrace [] = tt
entries-NoBrace (n ∷ ns) =
    All-append (λ c. c ≢ b'}') (format_decimal n) (b' ' ∷ entries ns)
      (digits-NoBrace (format_decimal n) (format-IsDigit n)) (omega arith, entries-NoBrace ns)

-- The parts of a list that opens and ends with a brace.
abbrev pub parts : List ℕ → List Bytes
parts ns = map format_decimal ns ++ codes "}" ∷ []

split-entries : (ns : List ℕ) → split (entries ns ++ codes "}") ≡ parts ns
unfolding entries
split-entries [] = split_last (codes "}") (omega arith, tt)
split-entries (n ∷ ns) =
    ap split (append_assoc (format_decimal n) (b' ' ∷ entries ns) (codes "}"))
    ∙ split-word (format_decimal n) (entries ns ++ codes "}")
        (digits-NoBlank (format_decimal n) (format-IsDigit n))
    ∙ ap (◌∷◌ (format_decimal n)) (split-entries ns)

pub split-list :
    (ns : List ℕ) → split (codes "{ " ++ (entries ns ++ codes "}")) ≡ codes "{" ∷ parts ns
split-list ns =
    split-word (codes "{") (entries ns ++ codes "}") (omega arith, tt)
    ∙ ap (◌∷◌ (codes "{")) (split-entries ns)

all_digits-value : (n : ℕ) (ds : Bytes) → All IsDigit ds → all_digits n ds ≡ some (value n ds)
unfolding all_digits
all_digits-value n [] h = refl
all_digits-value n (d ∷ ds) (hd, h) =
    ground (arith, all_digits-value (n * 10 + (d - b'0')) ds h, hd)

magnitude-value :
    (limit c : ℕ) (ds : Bytes)
    → All IsDigit (c ∷ ds)
    → value 0 (c ∷ ds) ≤ limit
    → magnitude limit (c ∷ ds) ≡ some (value 0 (c ∷ ds))
unfolding magnitude
magnitude-value limit c ds h small =
    rw (all_digits-value 0 (c ∷ ds) h, magnitude) (ground (arith, small))

atoi-digits :
    (c : ℕ) (ds : Bytes)
    → All IsDigit (c ∷ ds)
    → value 0 (c ∷ ds) < 2 ^ 63
    → atoi (c ∷ ds) ≡ some (value 0 (c ∷ ds))
unfolding atoi
atoi-digits c ds (hc, h) small = ground (arith, hc, magnitude-value (2 ^ 63 - 1) c ds (hc, h))

-- `strconv.Atoi` reads a number that fits into an `int` back.
pub atoi-format : (n : ℕ) → n < 2 ^ 63 → atoi (format_decimal n) ≡ some n
atoi-format n h =
    let (c, ds, e, _) = format-head n in
    let v : value 0 (c ∷ ds) ≡ n = ap (value 0) (sym e) ∙ value-format n in
    rw e (
      atoi-digits c ds (subst (All IsDigit) e (format-IsDigit n)) (omega (arith, v, h)) ∙ ap some v)

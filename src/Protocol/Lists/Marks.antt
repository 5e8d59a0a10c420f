-- ===== src/Protocol/Lists/Marks.antt =====
-- The loop of `getMarksCallback.OK` on the parts of a list, the last of which ends with the brace that
-- ended the list.
use komandgo.Base.{
  ℕ, zero, suc, ◌+◌, ◌-◌, ◌%◌, ◌^◌, ◌*◌, ◌<◌, ◌≤◌, ◌≡◌, ◌≢◌, refl, ap, ◌∙◌, false, List, [], ◌∷◌,
  ◌++◌, none, some, Option-cases, Bool-cases, inl, inr, Bytes, codes, length, get_elem?, ◌==◌,
  arith, drop, All, append-nil, append_assoc,
}
use native.Mathlib.Decide.{dec_lt}
use komandgo.Protocol.Lists.{
  split, extend, atoi, all_digits, magnitude, negated, marks_loop, marks_start,
}
use komandgo.Fmt.{format_decimal}
use komandgo.Protocol.Lists.Parts.{parts, atoi-format}
use komandgo.Utils.Numbers.{get_elem?-drop}
use komandgo.Protocol.Server.{same_bytes}
use komandgo.Types.Records.{Mark}

-- A text with a byte that is no digit at its end spells no number.
all_digits-end : (n : ℕ) (p : Bytes) (c : ℕ) → b'9' < c → all_digits n (p ++ c ∷ []) ≡ none
unfolding all_digits
all_digits-end n [] c h = ground (arith, h)
all_digits-end n (d ∷ p) c h = ground (arith, all_digits-end (n * 10 + (d - b'0')) p c h)

magnitude-end : (limit : ℕ) (p : Bytes) (c : ℕ) → b'9' < c → magnitude limit (p ++ c ∷ []) ≡ none
unfolding magnitude
magnitude-end limit [] c h = rw (all_digits-end 0 [] c h, magnitude) refl
magnitude-end limit (d ∷ p) c h = rw (all_digits-end 0 (d ∷ p) c h, magnitude) refl

negated-none : negated none ≡ none
unfolding negated
negated-none = refl

atoi-end : (p : Bytes) (c : ℕ) → b'9' < c → atoi (p ++ c ∷ []) ≡ none
unfolding atoi
atoi-end [] c h =
    ground (arith, h, magnitude-end (2 ^ 63 - 1) [] c h, magnitude-end (2 ^ 63) [] c h)
atoi-end (d ∷ p) c h = ground (
  arith,
  magnitude-end (2 ^ 63) p c h,
  magnitude-end (2 ^ 63 - 1) p c h,
  magnitude-end (2 ^ 63 - 1) (d ∷ p) c h,
  negated-none,
)

-- A part from `pos` on that is no number.
abbrev pub Blocked : List Bytes → ℕ → Type 0
Blocked tmp pos = (q : ℕ) × (s : Bytes) × (pos ≤ q) × (get_elem? tmp q ≡ some s) × (atoi s ≡ none)

get_elem?-below :
    (tmp : List Bytes) (pos q : ℕ) → pos ≤ q → get_elem? tmp q ≢ none → get_elem? tmp pos ≢ none
get_elem?-below [] pos q h g = g
get_elem?-below (x ∷ tmp) zero q h g = cc
get_elem?-below (x ∷ tmp) (suc pos) zero h g = elim h [ ]
get_elem?-below (x ∷ tmp) (suc pos) (suc q) h g = get_elem?-below tmp pos q (omega arith) g

-- What stands before the part that is no number is a part, and the next one is still before it.
Blocked-part :
    (tmp : List Bytes) (pos : ℕ) → Blocked tmp pos → (s : Bytes) × (get_elem? tmp pos ≡ some s)
Blocked-part tmp pos (q, s, le, e, a) = elim (Option-cases (get_elem? tmp pos)) [
  | inl missing ↦ elim (get_elem?-below tmp pos q le (λ lost. cc) missing) [ ]
  | inr found ↦ found
]

Blocked-suc :
    (tmp : List Bytes) (pos : ℕ) {s : Bytes} {n : ℕ}
    → get_elem? tmp pos ≡ some s
    → atoi s ≡ some n
    → Blocked tmp pos
    → Blocked tmp (suc pos)
Blocked-suc tmp pos e a (q, s, le, there, aq) = elim (dec_lt pos q) [
  | yes further ↦ (q, s, further, there, aq)
  | no stop ↦ let same : q ≡ pos = omega (arith, le, stop) in let absurd : ⊥ = cc in elim absurd [ ]
]

pub marks_loop-Blocked :
    (n : ℕ) (tmp : List Bytes) (pos : ℕ) (arr : List Mark)
    → Blocked tmp pos
    → marks_loop n tmp pos arr ≢ none
unfolding marks_loop
marks_loop-Blocked zero tmp pos arr b = cc
marks_loop-Blocked (suc n) tmp pos arr b =
    let (s, e) = Blocked-part tmp pos b in
    elim (Option-cases (atoi s)) [
      | inl a ↦ ground (arith, e, a)
      | inr (text_no, a) ↦
          let b1 = Blocked-suc tmp pos e a b in
          let (t, e1) = Blocked-part tmp (suc pos) b1 in
          elim (Option-cases (atoi t)) [
            | inl a1 ↦ ground (arith, e, a, e1, a1)
            | inr (kind, a1) ↦ ground (
              arith,
              e,
              a,
              e1,
              a1,
              marks_loop-Blocked n tmp (suc (suc pos))
                  (arr ++ record { text_no = text_no % 2 ^ 32; type = kind % 2 ^ 8 } ∷ [])
                  (Blocked-suc tmp (suc pos) e1 a1 b1),
            )
          ]
    ]

extend-end :
    (d c : ℕ) (parts : List Bytes) (q : ℕ) (p : Bytes)
    → get_elem? parts q ≡ some (p ++ c ∷ [])
    → (p' : Bytes) × (get_elem? (extend d parts) q ≡ some (p' ++ c ∷ []))
extend-end d c [] q p e = let absurd : ⊥ = cc in elim absurd [ ]
extend-end d c (x ∷ parts) zero p e = (d ∷ p, cc)
extend-end d c (x ∷ parts) (suc q) p e = (p, e)

-- The last part of a text that ends with a byte other than a blank ends with that byte.
split-end :
    (s : Bytes) (c : ℕ)
    → c ≢ b' '
    → (q : ℕ) × (p : Bytes) × (get_elem? (split (s ++ c ∷ [])) q ≡ some (p ++ c ∷ []))
unfolding split
split-end [] c h = (0, [], ground (arith, h))
split-end (d ∷ s) c h = elim (Bool-cases (d == b' ')) [
  | inl blank ↦ let (q, p, e) = split-end s c h in (suc q, p, rw blank e)
  | inr other ↦
      let (q, p, e) = split-end s c h in
      let (p', e') = extend-end d c (split (s ++ c ∷ [])) q p e in (q, p', rw other e')
]

not_open_brace : (p : Bytes) → same_bytes (p ++ b'}' ∷ []) (codes "{") ≡ false
unfolding same_bytes
not_open_brace [] = refl
not_open_brace (d ∷ []) = ground arith
not_open_brace (d ∷ e ∷ p) = ground arith

-- Where the first part is a brace that opens the list, the last part is another one.
start_le :
    (tmp : List Bytes) (q : ℕ) (p : Bytes)
    → get_elem? tmp q ≡ some (p ++ b'}' ∷ [])
    → marks_start tmp ≤ q
unfolding marks_start
start_le [] q p e = omega arith
start_le (x ∷ tmp) (suc q) p e = elim (Bool-cases (same_bytes x (codes "{"))) [
  | inl e1 ↦ rw e1 (omega arith)
  | inr e1 ↦ rw e1 (omega arith)
]
start_le (x ∷ tmp) zero p e =
    let same : x ≡ p ++ b'}' ∷ [] = cc in rw (same, not_open_brace p) (omega arith)

-- The parts of a list that ends with a brace stop the loop, from where it starts.
pub split-Blocked :
    (s : Bytes) → Blocked (split (s ++ b'}' ∷ [])) (marks_start (split (s ++ b'}' ∷ [])))
split-Blocked s =
    let (q, p, e) = split-end s b'}' (omega arith) in
    (q, p ++ b'}' ∷ [], start_le (split (s ++ b'}' ∷ [])) q p e, e, atoi-end p b'}' (omega arith))

-- The numbers of a list of marks.
abbrev pub flat : List Mark → List ℕ
flat [] = []
flat (m ∷ ms) = m.text_no ∷ m.type ∷ flat ms

-- What a mark can hold: a word of 32 bits and a byte.
abbrev pub IsMark : Mark → Type 0
IsMark m = (m.text_no < 2 ^ 32) × (m.type < 2 ^ 8)

marks_loop-step :
    (n : ℕ) (tmp : List Bytes) (pos : ℕ) (arr : List Mark) {s t : Bytes} (m : Mark)
    → get_elem? tmp pos ≡ some s
    → atoi s ≡ some m.text_no
    → get_elem? tmp (suc pos) ≡ some t
    → atoi t ≡ some m.type
    → IsMark m
    → marks_loop (suc n) tmp pos arr ≡ marks_loop n tmp (suc (suc pos)) (arr ++ m ∷ [])
unfolding marks_loop
marks_loop-step n tmp pos arr m e a e1 a1 (h, h1) =
    let whole : m.text_no % 2 ^ 32 ≡ m.text_no = omega (arith, h) in
    let byte : m.type % 2 ^ 8 ≡ m.type = omega (arith, h1) in
    let opened : marks_loop (suc n) tmp pos arr
        ≡ marks_loop n tmp (suc (suc pos))
            (arr ++ record { text_no = m.text_no % 2 ^ 32; type = m.type % 2 ^ 8 } ∷ []) =
      ground (arith, e, a, e1, a1) in
    opened ∙ (λ i.
      marks_loop n tmp (suc (suc pos)) (arr ++ record { text_no = whole i; type = byte i } ∷ []))

marks_loop_done :
    (tmp : List Bytes) (pos : ℕ) (arr : List Mark) → marks_loop 0 tmp pos arr ≡ some (arr, none)
unfolding marks_loop
marks_loop_done tmp pos arr = refl

-- The loop reads a list of marks whole.
pub marks_loop-parts :
    (ms : List Mark) (tmp : List Bytes) (pos : ℕ) (arr : List Mark)
    → drop pos tmp ≡ parts (flat ms)
    → All IsMark ms
    → marks_loop (length ms) tmp pos arr ≡ some (arr ++ ms, none)
marks_loop-parts [] tmp pos arr e h = rw (append-nil arr) (marks_loop_done tmp pos arr)
marks_loop-parts (m ∷ ms) tmp pos arr e ((h, h1), hs) =
    let (here, next) =
      get_elem?-drop tmp pos (format_decimal m.text_no) (parts (m.type ∷ flat ms)) e in
    let (here1, next1) =
      get_elem?-drop tmp (suc pos) (format_decimal m.type) (parts (flat ms)) next in
    marks_loop-step (length ms) tmp pos arr m here (atoi-format m.text_no (omega (arith, h))) here1
      (atoi-format m.type (omega (arith, h1))) (h, h1)
    ∙ marks_loop-parts ms tmp (suc (suc pos)) (arr ++ m ∷ []) next1 hs
    ∙ ap (λ out. some (out, none)) (append_assoc arr (m ∷ []) ms)

pub open_brace : (ns : List ℕ) → marks_start (codes "{" ∷ parts ns) ≡ 1
unfolding marks_start
open_brace ns = refl

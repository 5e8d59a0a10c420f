-- ===== src/Types/Flags/RoundTrip.antt =====
-- Flags that are written and read back.
use native.Mathlib.Nat.{add-zero}
use native.Mathlib.Numerals.{add-one, add-two, add-three}
use komandgo.Base.{
  ◌≢◌, All, subst, sym, length, suc, ℕ, ◌+◌, ◌*◌, ◌/◌, ◌%◌, ◌^◌, ◌≤◌, ◌<◌, ◌≡◌, refl, Bool, true,
  false, List, [], ◌∷◌, ◌++◌, some, ap, ◌∙◌, arith, Bytes, drop, if◌then◌else◌,
}
use komandgo.Fmt.{format_binary}
use komandgo.Fmt.Scan.{is_binary}
use komandgo.Fmt.Scan.Fields.Binary.{fscanf-bits}
use komandgo.Io.{Read, reader, feed}
use komandgo.Utils.Numbers.{get_elem?-drop}
use komandgo.Types.Flags.{
  is_one, conf_type_of, ConfType, ExtendedConfType, PrivBits, mark, extended_word, extended_repr,
  priv_word, priv_repr, test_bit, priv_of_word, extended_of_word, read_priv_bits,
  read_extended_conf_type, bit_field, plain, extended, parse_conf_type, extended_bit_field,
  conf_bit_field,
}

pub bit : Bool → ℕ
bit b = if b then 1 else 0

test_bit_lem : (b : Bool) (n k : ℕ) → n / 2 ^ k % 2 ≡ bit b → test_bit n k ≡ b
unfolding test_bit bit
test_bit_lem true n k h = ground arith
test_bit_lem false n k h = ground arith

bit-le : (b : Bool) → bit b ≤ 1
unfolding bit
bit-le b = ground arith

bit-false : bit false ≡ 0
unfolding bit
bit-false = refl

mark_first : (b : Bool) → mark b 0 ≡ bit b
unfolding mark bit
mark_first b = ground arith

-- A flag put in behind others, in a word of 8 and of 16 bits that has room for it.
mark8 : (b : Bool) (n : ℕ) → n < 2 ^ 7 → mark b (n * 2 % 2 ^ 8) ≡ n * 2 + bit b
unfolding mark bit
mark8 b n h = ground arith

mark16 : (b : Bool) (n : ℕ) → n < 2 ^ 15 → mark b (n * 2 % 2 ^ 16) ≡ n * 2 + bit b
unfolding mark bit
mark16 b n h = ground arith

-- A word with one more flag.
abbrev push : ℕ → Bool → ℕ
push n b = n * 2 + bit b

-- Each flag has the weight of its place.
extended_word_lem :
    (t : ExtendedConfType)
    → extended_word t
      ≡ push
          (push
            (push
              (push
                (push (push (push (bit t.rd_prot) t.original) t.secret) t.letter_box)
                t.allow_anonymous)
              t.forbid_secret)
            t.reserved2)
          t.reserved3
unfolding extended_word
extended_word_lem t =
    let n1 = push (bit t.rd_prot) t.original in
    let n2 = push n1 t.secret in
    let n3 = push n2 t.letter_box in
    let n4 = push n3 t.allow_anonymous in
    let n5 = push n4 t.forbid_secret in
    rw (
      mark_first t.rd_prot,
      mark8 t.original (bit t.rd_prot) (omega (arith, bit-le)),
      mark8 t.secret n1 (omega (arith, bit-le)),
      mark8 t.letter_box n2 (omega (arith, bit-le)),
      mark8 t.allow_anonymous n3 (omega (arith, bit-le)),
      mark8 t.forbid_secret n4 (omega (arith, bit-le)),
      mark8 t.reserved2 n5 (omega (arith, bit-le)),
      mark8 t.reserved3 (push n5 t.reserved2) (omega (arith, bit-le)),
    )

priv_word_lem :
    (p : PrivBits)
    → priv_word p
      ≡ push
          (push
            (push (push (push (bit p.wheel) p.admin) p.statistic) p.create_persons)
            p.create_conferences)
          p.change_name
        * 2 ^ 10
unfolding priv_word
priv_word_lem p =
    let n1 = push (bit p.wheel) p.admin in
    let n2 = push n1 p.statistic in
    let n3 = push n2 p.create_persons in
    let n4 = push n3 p.create_conferences in
    rw
      (
        mark_first p.wheel,
        mark16 p.admin (bit p.wheel) (omega (arith, bit-le)),
        mark16 p.statistic n1 (omega (arith, bit-le)),
        mark16 p.create_persons n2 (omega (arith, bit-le)),
        mark16 p.create_conferences n3 (omega (arith, bit-le)),
        mark16 p.change_name n4 (omega (arith, bit-le)),
      )
      (omega (arith, bit-le))

extended_word-lt : (t : ExtendedConfType) → extended_word t < 2 ^ 8
extended_word-lt t = omega (arith, extended_word_lem t, bit-le)

priv_word-lt : (p : PrivBits) → priv_word p < 2 ^ 16
priv_word-lt p = omega (arith, priv_word_lem p, bit-le)

extended_of_word-extended_word : (t : ExtendedConfType) → extended_of_word (extended_word t) ≡ t
unfolding extended_of_word
extended_of_word-extended_word t =
    let e = extended_word_lem t in
    λ i. record {
      rd_prot = test_bit_lem t.rd_prot (extended_word t) 7 (omega (arith, e, bit-le)) i;
      original = test_bit_lem t.original (extended_word t) 6 (omega (arith, e, bit-le)) i;
      secret = test_bit_lem t.secret (extended_word t) 5 (omega (arith, e, bit-le)) i;
      letter_box = test_bit_lem t.letter_box (extended_word t) 4 (omega (arith, e, bit-le)) i;
      allow_anonymous =
          test_bit_lem t.allow_anonymous (extended_word t) 3 (omega (arith, e, bit-le)) i;
      forbid_secret = test_bit_lem t.forbid_secret (extended_word t) 2 (omega (arith, e, bit-le)) i;
      reserved2 = test_bit_lem t.reserved2 (extended_word t) 1 (omega (arith, e, bit-le)) i;
      reserved3 = test_bit_lem t.reserved3 (extended_word t) 0 (omega (arith, e, bit-le)) i;
    }

priv_of_word-priv_word : (p : PrivBits) → priv_of_word (priv_word p) ≡ p
unfolding priv_of_word
priv_of_word-priv_word p =
    let e = priv_word_lem p in
    λ i. record {
      wheel = test_bit_lem p.wheel (priv_word p) 15 (omega (arith, e, bit-le)) i;
      admin = test_bit_lem p.admin (priv_word p) 14 (omega (arith, e, bit-le)) i;
      statistic = test_bit_lem p.statistic (priv_word p) 13 (omega (arith, e, bit-le)) i;
      create_persons = test_bit_lem p.create_persons (priv_word p) 12 (omega (arith, e, bit-le)) i;
      create_conferences =
          test_bit_lem p.create_conferences (priv_word p) 11 (omega (arith, e, bit-le)) i;
      change_name = test_bit_lem p.change_name (priv_word p) 10 (omega (arith, e, bit-le)) i;
    }

-- `ReadPrivBits` reads every set of privileges back from its `Repr`, on a reader of either kind,
-- and takes nothing of what follows.
pub read_priv_bits-repr :
    (p : PrivBits) (q : Bool) (rest : List Read)
    → read_priv_bits (reader q (feed (priv_repr p) rest)) ≡ (p, reader q rest)
unfolding read_priv_bits priv_repr
read_priv_bits-repr p q rest =
    rw (fscanf-bits q 16 (priv_word p) rest (omega arith) (priv_word-lt p))
      (rw (priv_of_word-priv_word p))

-- `ReadExtendedConfType` reads every extended conference type back from its `Repr`, the reserved
-- bits with it, on a reader of either kind, and takes nothing of what follows.
pub read_extended_conf_type-repr :
    (t : ExtendedConfType) (q : Bool) (rest : List Read)
    → read_extended_conf_type (reader q (feed (extended_repr t) rest)) ≡ (t, reader q rest)
unfolding read_extended_conf_type extended_repr
read_extended_conf_type-repr t q rest =
    rw (fscanf-bits q 8 (extended_word t) rest (omega arith) (extended_word-lt t))
      (rw (extended_of_word-extended_word t))

-- What `BitField` sends of an extended conference type: the two reserved bits are not sent.
abbrev pub without_reserved : ExtendedConfType → ExtendedConfType
without_reserved t = record t { reserved2 = false; reserved3 = false }

abbrev pub digit : Bool → ℕ
digit b = b'0' + bit b

extended_bit_field_lem :
    (t : ExtendedConfType)
    → extended_bit_field t
      ≡ digit t.rd_prot
        ∷ digit t.original
        ∷ digit t.secret
        ∷ digit t.letter_box
        ∷ digit t.allow_anonymous
        ∷ digit t.forbid_secret
        ∷ b'0'
        ∷ b'0'
        ∷ []
unfolding extended_bit_field bit
extended_bit_field_lem t = ground arith

format_binary8 :
    (n : ℕ)
    → format_binary 8 n
      ≡ (b'0' + n / 128 % 2)
        ∷ (b'0' + n / 64 % 2)
        ∷ (b'0' + n / 32 % 2)
        ∷ (b'0' + n / 16 % 2)
        ∷ (b'0' + n / 8 % 2)
        ∷ (b'0' + n / 4 % 2)
        ∷ (b'0' + n / 2 % 2)
        ∷ (b'0' + n % 2)
        ∷ []
unfolding format_binary
format_binary8 n = ground arith

-- `BitField` writes what `Repr` writes for the type without its reserved bits.
pub bit_field-repr :
    (t : ExtendedConfType) → bit_field (extended t) ≡ extended_repr (without_reserved t)
unfolding extended_repr bit_field
bit_field-repr t =
    let w = extended_word (without_reserved t) in
    let e = extended_word_lem (without_reserved t) in
    let d7 : digit t.rd_prot ≡ b'0' + w / 128 % 2 = omega (arith, e, bit-le) in
    let d6 : digit t.original ≡ b'0' + w / 64 % 2 = omega (arith, e, bit-le) in
    let d5 : digit t.secret ≡ b'0' + w / 32 % 2 = omega (arith, e, bit-le) in
    let d4 : digit t.letter_box ≡ b'0' + w / 16 % 2 = omega (arith, e, bit-le) in
    let d3 : digit t.allow_anonymous ≡ b'0' + w / 8 % 2 = omega (arith, e, bit-le) in
    let d2 : digit t.forbid_secret ≡ b'0' + w / 4 % 2 = omega (arith, e, bit-le) in
    let d1 : b'0' ≡ b'0' + w / 2 % 2 = omega (arith, e, bit-le, bit-false) in
    let d0 : b'0' ≡ b'0' + w % 2 = omega (arith, e, bit-le, bit-false) in
    cc (extended_bit_field_lem t, format_binary8 w)

pub conf_bit_field_lem :
    (t : ConfType)
    → conf_bit_field t
      ≡ digit t.rd_prot ∷ digit t.original ∷ digit t.secret ∷ digit t.letter_box ∷ []
unfolding conf_bit_field bit
conf_bit_field_lem t = ground arith

is_one-digit : (b : Bool) → is_one (some (digit b)) ≡ some b
unfolding bit
is_one-digit b = ground arith

pub length-bit_field : (t : ConfType) → length (bit_field (plain t)) ≡ 4
unfolding bit_field
length-bit_field t = ap length (conf_bit_field_lem t)

pub digit-is_binary : (b : Bool) → is_binary (digit b) ≡ true
unfolding bit
digit-is_binary b = ground arith

digit-NoBrace : (b : Bool) → digit b ≢ b'}'
unfolding bit
digit-NoBrace b = ground arith

pub bit_field-NoBrace : (t : ConfType) → All (λ c. c ≢ b'}') (bit_field (plain t))
unfolding bit_field
bit_field-NoBrace t = subst (All (λ c. c ≢ b'}')) (sym (conf_bit_field_lem t)) (
  digit-NoBrace t.rd_prot,
  (digit-NoBrace t.original, (digit-NoBrace t.secret, (digit-NoBrace t.letter_box, tt))),
)

-- `ParseConfType` reads every conference type back from its `BitField`, wherever it stands in a text.
pub parse_conf_type-bit_field :
    (t : ConfType) (s : Bytes) (start : ℕ) (rest : Bytes)
    → drop start s ≡ bit_field (plain t) ++ rest
    → parse_conf_type s start ≡ some t
unfolding parse_conf_type bit_field
parse_conf_type-bit_field t s start rest h =
    let whole : drop start s
        ≡ digit t.rd_prot ∷ digit t.original ∷ digit t.secret ∷ digit t.letter_box ∷ rest =
      h ∙ ap (λ x. x ++ rest) (conf_bit_field_lem t) in
    let (e0, h1) = get_elem?-drop s start _ _ whole in
    let (e1, h2) = get_elem?-drop s (suc start) _ _ h1 in
    let (e2, h3) = get_elem?-drop s (suc (suc start)) _ _ h2 in
    let (e3, _) = get_elem?-drop s (suc (suc (suc start))) _ _ h3 in
    simp (add-zero, add-one, add-two, add-three, e0, e1, e2, e3)
      (λ i.
        conf_type_of (is_one-digit t.rd_prot i) (is_one-digit t.original i)
          (is_one-digit t.secret i) (is_one-digit t.letter_box i))

-- ===== src/Types/Flags.antt =====
-- pkg/types: the records of single bits, written as a string of `0` and `1` (marshal.go, `BitField`
-- in types.go) and read back (unmarshal.go, and `ParseConfType` of pkg/utils/utils.go).
pub mod RoundTrip
pub mod Digits
use komandgo.Base.{
  ℕ, ◌+◌, ◌-◌, ◌*◌, ◌/◌, ◌%◌, ◌^◌, ◌≡◌, refl, Bool, true, false, not, List, [], ◌∷◌, Option, none,
  some, Bytes, codes, get_elem?, set, ◌==◌, if◌then◌else◌,
}
use komandgo.Fmt.{format_binary}
use komandgo.Fmt.Scan.{fscanf, scan_bits}
use komandgo.Io.{Reader, reader, feed}

pub record ConfType : Type 0 where
  pub rd_prot : Bool
  pub original : Bool
  pub secret : Bool
  pub letter_box : Bool

pub record ExtendedConfType : Type 0 where
  pub rd_prot : Bool
  pub original : Bool
  pub secret : Bool
  pub letter_box : Bool
  pub allow_anonymous : Bool
  pub forbid_secret : Bool
  pub reserved2 : Bool
  pub reserved3 : Bool

pub record PrivBits : Type 0 where
  pub wheel : Bool
  pub admin : Bool
  pub statistic : Bool
  pub create_persons : Bool
  pub create_conferences : Bool
  pub change_name : Bool

pub record PersonalFlags : Type 0 where
  pub unread_is_secret : Bool

pub record AuxItemFlags : Type 0 where
  pub deleted : Bool
  pub inherit : Bool
  pub secret : Bool
  pub hide_creator : Bool
  pub dont_garb : Bool
  pub reserved2 : Bool
  pub reserved3 : Bool
  pub reserved4 : Bool

pub record MembershipType : Type 0 where
  pub invitation : Bool
  pub passive : Bool
  pub secret : Bool
  pub passive_message_inver : Bool

pub record SessionFlags : Type 0 where
  pub invisible : Bool
  pub user_active_used : Bool
  pub user_absent : Bool

-- The interface `AnyConfType`, as its two implementations.
pub data AnyConfType : Type 0 where
  plain : ConfType → AnyConfType
  extended : ExtendedConfType → AnyConfType

-- `if flag { ar[i] = '1' }`
abbrev put_one : Bool → ℕ → Bytes → Bytes
put_one flag i ar = if flag then set ar i b'1' else ar

-- `ConfType.BitField`
unfoldable pub conf_bit_field : ConfType → Bytes
conf_bit_field t =
    put_one t.letter_box 3
      (put_one t.secret 2 (put_one t.original 1 (put_one t.rd_prot 0 (codes "0000"))))

-- `ExtendedConfType.BitField`, which leaves the last two bits at 0.
unfoldable pub extended_bit_field : ExtendedConfType → Bytes
extended_bit_field t = put_one t.forbid_secret 5 (
    put_one t.allow_anonymous 4 (
      put_one t.letter_box 3
        (put_one t.secret 2 (put_one t.original 1 (put_one t.rd_prot 0 (codes "00000000"))))))

-- `AnyConfType.BitField`
unfoldable pub bit_field : AnyConfType → Bytes
bit_field (plain t) = conf_bit_field t
bit_field (extended t) = extended_bit_field t

-- `isConfType` of both.
unfoldable pub is_conf_type : AnyConfType → Bool
is_conf_type (plain t) = true
is_conf_type (extended t) = true

-- `if flag { tmp |= 1 }`
mark : Bool → ℕ → ℕ
mark flag tmp = if flag then tmp + (1 - tmp % 2) else tmp

-- The `uint8` of `ExtendedConfType.Repr`: each flag is put in after a shift to the left.
extended_word : ExtendedConfType → ℕ
extended_word ec =
    let t0 = mark ec.rd_prot 0 in
    let t1 = mark ec.original (t0 * 2 % 2 ^ 8) in
    let t2 = mark ec.secret (t1 * 2 % 2 ^ 8) in
    let t3 = mark ec.letter_box (t2 * 2 % 2 ^ 8) in
    let t4 = mark ec.allow_anonymous (t3 * 2 % 2 ^ 8) in
    let t5 = mark ec.forbid_secret (t4 * 2 % 2 ^ 8) in
    let t6 = mark ec.reserved2 (t5 * 2 % 2 ^ 8) in mark ec.reserved3 (t6 * 2 % 2 ^ 8)

-- `ExtendedConfType.Repr`
pub extended_repr : ExtendedConfType → Bytes
extended_repr ec = format_binary 8 (extended_word ec)

-- The `uint16` of `PrivBits.Repr`
priv_word : PrivBits → ℕ
priv_word p =
    let t0 = mark p.wheel 0 in
    let t1 = mark p.admin (t0 * 2 % 2 ^ 16) in
    let t2 = mark p.statistic (t1 * 2 % 2 ^ 16) in
    let t3 = mark p.create_persons (t2 * 2 % 2 ^ 16) in
    let t4 = mark p.create_conferences (t3 * 2 % 2 ^ 16) in
    let t5 = mark p.change_name (t4 * 2 % 2 ^ 16) in t5 * 2 ^ 10 % 2 ^ 16

-- `PrivBits.Repr`
pub priv_repr : PrivBits → Bytes
priv_repr p = format_binary 16 (priv_word p)

-- `tmp & 2^k != 0`, which is also `tmp & 2^k == 2^k`.
test_bit : ℕ → ℕ → Bool
test_bit tmp k = tmp / 2 ^ k % 2 == 1

-- A variable that a failed `Fscanf` leaves at its zero value.
abbrev pub or_zero : Option ℕ → ℕ
or_zero none = 0
or_zero (some n) = n

priv_of_word : ℕ → PrivBits
unfolding test_bit
priv_of_word tmp = record {
  wheel = test_bit tmp 15;
  admin = test_bit tmp 14;
  statistic = test_bit tmp 13;
  create_persons = test_bit tmp 12;
  create_conferences = test_bit tmp 11;
  change_name = test_bit tmp 10;
}

-- `ReadPrivBits`
unfoldable pub read_priv_bits : Reader → PrivBits × Reader
unfolding fscanf scan_bits priv_of_word
read_priv_bits r = let (tmp, err, r') = fscanf (scan_bits 16) r in (priv_of_word (or_zero tmp), r')

extended_of_word : ℕ → ExtendedConfType
unfolding test_bit
extended_of_word tmp = record {
  rd_prot = test_bit tmp 7;
  original = test_bit tmp 6;
  secret = test_bit tmp 5;
  letter_box = test_bit tmp 4;
  allow_anonymous = test_bit tmp 3;
  forbid_secret = test_bit tmp 2;
  reserved2 = test_bit tmp 1;
  reserved3 = test_bit tmp 0;
}

-- `ReadExtendedConfType`, without its print on the terminal.
unfoldable pub read_extended_conf_type : Reader → ExtendedConfType × Reader
unfolding fscanf scan_bits extended_of_word
read_extended_conf_type r =
    let (tmp, err, r') = fscanf (scan_bits 8) r in (extended_of_word (or_zero tmp), r')

-- `ReadPersonalFlags`
unfoldable pub read_personal_flags : Reader → PersonalFlags × Reader
unfolding fscanf scan_bits
read_personal_flags r =
    let (tmp, err, r') = fscanf (scan_bits 8) r in
    (record { unread_is_secret = not (or_zero tmp == 0) }, r')

abbrev is_one : Option ℕ → Option Bool
is_one none = none
is_one (some c) = some (c == b'1')

abbrev conf_type_of : Option Bool → Option Bool → Option Bool → Option Bool → Option ConfType
conf_type_of (some a) (some b) (some c) (some d) =
    some (record { rd_prot = a; original = b; secret = c; letter_box = d })
conf_type_of a b c d = none

-- `ParseConfType`; `none` is a panic, at an index out of range.
unfoldable pub parse_conf_type : Bytes → ℕ → Option ConfType
parse_conf_type s start =
    conf_type_of (is_one (get_elem? s (start + 0))) (is_one (get_elem? s (start + 1)))
      (is_one (get_elem? s (start + 2))) (is_one (get_elem? s (start + 3)))

priv_repr_runs :
    priv_repr (record {
      wheel = true;
      admin = true;
      statistic = false;
      create_persons = false;
      create_conferences = false;
      change_name = true;
    })
    ≡ codes "1100010000000000"
unfolding priv_repr priv_word mark format_binary
priv_repr_runs = refl

read_extended_runs :
    (read_extended_conf_type (reader true (feed (codes "01011000") []))).0 ≡ record {
      rd_prot = false;
      original = true;
      secret = false;
      letter_box = true;
      allow_anonymous = true;
      forbid_secret = false;
      reserved2 = false;
      reserved3 = false;
    }
unfolding read_extended_conf_type
read_extended_runs = refl

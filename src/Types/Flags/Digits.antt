-- ===== src/Types/Flags/Digits.antt =====
-- `BitField` and `Repr` write the digits 0 and 1 alone.
use komandgo.Base.{sym, subst}
use komandgo.Fmt.Scan.{is_binary}
use komandgo.Fmt.Scan.Fields.{Passes}
use komandgo.Fmt.Scan.Fields.Binary.{format_binary-Passes}
use komandgo.Types.Flags.{
  PrivBits, priv_word, priv_repr, extended_word, extended_repr, AnyConfType, plain, extended,
  bit_field,
}
use komandgo.Types.Flags.RoundTrip.{
  digit-is_binary, conf_bit_field_lem, bit_field-repr, without_reserved,
}

pub priv_repr-Passes : (p : PrivBits) → Passes is_binary (priv_repr p)
unfolding priv_repr
priv_repr-Passes p = format_binary-Passes 16 (priv_word p)

pub bit_field-Passes : (t : AnyConfType) → Passes is_binary (bit_field t)
unfolding bit_field extended_repr
bit_field-Passes (plain t) = subst (Passes is_binary) (sym (conf_bit_field_lem t)) (
  digit-is_binary t.rd_prot,
  (digit-is_binary t.original, (digit-is_binary t.secret, (digit-is_binary t.letter_box, tt))),
)
bit_field-Passes (extended t) =
    subst (Passes is_binary) (sym (bit_field-repr t))
      (format_binary-Passes 8 (extended_word (without_reserved t)))

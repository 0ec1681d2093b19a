-- ===== src/Decode/Reads.antt =====
-- How the decoders read the payload of an attribute (`mnl_attr_get_*`).
use Prim.Native.String.{String}
use flower_route.Base.{ℕ, Option, none, some, List, ◌∷◌}
use flower_route.Base.Bytes.{load16, load32}
use flower_route.Ret.{Ret, ok, aborted, ◌>>=◌}
use flower_route.Netlink.{Payload, octets, strz, nested, Attrs}

-- The attribute that an assertion or a plain use requires.
abbrev pub required : Option Payload → Ret Payload
required none = aborted
required (some p) = ok p

abbrev pub octets_of : Payload → Ret (List ℕ)
octets_of (octets bs) = ok bs
octets_of _ = aborted

abbrev pub attrs_of : Payload → Ret Attrs
attrs_of (nested list) = ok list
attrs_of _ = aborted

abbrev pub nested_attrs : Option Payload → Ret Attrs
nested_attrs p = required p >>= attrs_of

unfoldable pub read_u8 : Payload → Ret ℕ
read_u8 (octets (b ∷ _)) = ok b
read_u8 _ = aborted

abbrev pub read_u16 : Payload → Ret ℕ
read_u16 p = do bs ← octets_of p; ok (load16 bs)

abbrev pub read_u32 : Payload → Ret ℕ
read_u32 p = do bs ← octets_of p; ok (load32 bs)

unfoldable pub read_str : Payload → Ret String
read_str (strz s) = ok s
read_str _ = aborted

-- `tb[T] ? mnl_attr_get_u16(tb[T]) : d`, and its kin.
abbrev pub u16_or : Option Payload → ℕ → Ret ℕ
u16_or none d = ok d
u16_or (some p) d = read_u16 p

abbrev pub u32_or : Option Payload → ℕ → Ret ℕ
u32_or none d = ok d
u32_or (some p) d = read_u32 p

abbrev pub str_or_null : Option Payload → Ret (Option String)
str_or_null none = ok none
str_or_null (some p) = do s ← read_str p; ok (some s)

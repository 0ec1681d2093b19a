-- ===== src/Onload.antt =====
-- src/onload.c: the configured lists of prefixes. A list in memory is a `List`, in the order of its
-- `next` pointers; a name is the list of its bytes. `inet_pton` of the C library is a parameter.
pub mod Lines
pub mod Store
pub mod Bounds
pub mod Tokens
pub mod Load
pub mod Print
pub mod File
mod Tests
use flower_route.Base.{
  ℕ, zero, suc, ◌%◌, ◌^◌, Bool, true, false, ◌||◌, Option, none, some, List, [], ◌∷◌, ◌++◌, ltb,
  leb, ◌==◌, is_some, if◌then◌else◌,
}
use flower_route.Base.Chars.{str_equal, strtol, strchr}
use flower_route.AfAddr.{AfAddr, af_inet, af_inet6, replicate}

-- `struct config_prefix_list_entry`: the twenty bytes of its `struct af_addr`. The family is the
-- first byte, the length of the mask the second, and the address starts at the fifth.
pub record Prefix : Type 0 where
  pub bytes : List ℕ

-- `struct config_prefix_list`.
pub record PrefixList : Type 0 where
  pub name : List ℕ
  pub entries : List Prefix

unfoldable pub lookup_prefix_list : List ℕ → List PrefixList → Option PrefixList
lookup_prefix_list list_name [] = none
lookup_prefix_list list_name (l ∷ ls) =
    let rest = lookup_prefix_list list_name ls in
    if str_equal l.name list_name then some l else rest

-- The lists afterwards; the one of the name is in them.
unfoldable pub get_or_create_prefix_list : List ℕ → List PrefixList → List PrefixList
unfolding lookup_prefix_list
get_or_create_prefix_list list_name ls =
    if is_some (lookup_prefix_list list_name ls)
    then ls
    else ls ++ record { name = list_name; entries = [] } ∷ []

-- The writes through the pointer to the list of the name.
unfoldable pub append_entry : List ℕ → Prefix → List PrefixList → List PrefixList
append_entry list_name pfx [] = []
append_entry list_name pfx (l ∷ ls) =
    let rest = append_entry list_name pfx ls in
    if str_equal l.name list_name
    then record l { entries = l.entries ++ pfx ∷ [] } ∷ ls
    else l ∷ rest

unfoldable pub onload_store_prefix : List ℕ → Prefix → List PrefixList → List PrefixList
unfolding get_or_create_prefix_list append_entry
onload_store_prefix list_name pfx ls =
    append_entry list_name pfx (get_or_create_prefix_list list_name ls)

-- What `inet_pton` returns: 1 with the bytes that it writes, 0, or a negative number.
pub data Pton : Type 0 where
  valid : List ℕ → Pton
  invalid unsupported : Pton

-- `memcpy` of the first bytes to the start of an object.
abbrev pub overwrite : List ℕ → List ℕ → List ℕ
overwrite [] old = old
overwrite (b ∷ bs) [] = []
overwrite (b ∷ bs) (_ ∷ old) = b ∷ overwrite bs old

-- `pfx` after `memset` and `inet_pton(af, ipstr, &pfx.addr)`, whose result 0 is an error.
unfoldable pub network_part : Pton → Option (List ℕ)
network_part (valid bs) = some (overwrite bs (replicate 20 0))
network_part invalid = none
network_part unsupported = some (replicate 20 0)

abbrev pub af_max_mask : ℕ → ℕ
af_max_mask af = if af == af_inet then 32 else 128

-- `val` is the `int` that the `long` is stored in.
abbrev pub checked_mask : ℕ → ℕ × List ℕ → Option ℕ
checked_mask max (v, _ ∷ _) = none
checked_mask max (v, []) =
    let val = v % 2 ^ 32 in if leb (2 ^ 31) val || ltb max val then none else some val

unfoldable pub mask_part : ℕ → Option (List ℕ) → Option ℕ
unfolding strtol
mask_part max none = some max
mask_part max (some maskstr) = checked_mask max (strtol maskstr)

-- `pfx.addr.mask_len = mask_len; pfx.addr.af = af;`
abbrev pub set_af_mask : ℕ → ℕ → List ℕ → List ℕ
set_af_mask af mask_len (_ ∷ _ ∷ rest) = af ∷ mask_len ∷ rest
set_af_mask af mask_len bs = bs

abbrev pub prefix_of : ℕ → Option (List ℕ) → Option ℕ → Option Prefix
prefix_of af (some bs) (some mask_len) = some (record { bytes = set_af_mask af mask_len bs })
prefix_of af none m = none
prefix_of af (some bs) none = none

-- `af = strchr(addr, ':') == NULL ? AF_INET : AF_INET6`
abbrev pub text_af : List ℕ → ℕ
text_af ipstr = if is_some (strchr 58 ipstr).1 then af_inet6 else af_inet

module _ (inet_pton : ℕ → List ℕ → Pton) where
  -- With the text split at the slash.
  unfoldable pub parts_prefix : List ℕ × Option (List ℕ) → Option Prefix
  unfolding network_part mask_part strchr
  parts_prefix parts =
      let af = text_af parts.0 in
      prefix_of af (network_part (inet_pton af parts.0)) (mask_part (af_max_mask af) parts.1)

  -- The part of `onload_add_prefix` up to the call that stores; `none` is `error_out`.
  unfoldable pub read_prefix : List ℕ → Option Prefix
  unfolding parts_prefix strchr
  read_prefix addr = parts_prefix (strchr 47 addr)

  abbrev pub stored : List ℕ → Option Prefix → List PrefixList → List PrefixList × Bool
  stored list_name none ls = (ls, false)
  stored list_name (some pfx) ls = (onload_store_prefix list_name pfx ls, true)

  -- The lists afterwards, and whether it returned 0; otherwise it returned -EINVAL.
  unfoldable pub onload_add_prefix : List ℕ → List ℕ → List PrefixList → List PrefixList × Bool
  unfolding read_prefix onload_store_prefix
  onload_add_prefix list_name orig_addr = stored list_name (read_prefix orig_addr)

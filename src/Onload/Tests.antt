-- ===== src/Onload/Tests.antt =====
-- The prefix lists at concrete files.
use flower_route.Base.{ℕ, ◌≡◌, refl, false, some, List, [], ◌∷◌, ◌++◌, map, arith, if◌then◌else◌}
use flower_route.Base.Chars.{str_equal, strchr, skip_while}
use flower_route.AfAddr.{replicate}
use flower_route.Onload.{
  Prefix, PrefixList, Pton, valid, invalid, read_prefix, overwrite, onload_add_prefix,
}
use flower_route.Onload.Lines.{
  token_end, onload_fread_prefix, loaded, einval, onload_load_prefixes, line_prefix,
}
use flower_route.Onload.Store.{prefixes, AllStored}
use flower_route.Onload.Bounds.{
  InFamily, prefix4, from_fifth, read_prefix-shifted, onload_add_prefix-InFamily,
}
use flower_route.Onload.Tokens.{is_prefix_char, token_end-skip_while}
use flower_route.Onload.Load.{push_all, Agrees, accepted, fread_prefix-Agrees}
use flower_route.Codec.Pedit.{Family}
use flower_route.Onload.File.{Entry, entry_prefix, file_of, IsEntry, load_round_trip}

-- "onload", and "10.1.2.3".
abbrev onload_name : List ℕ
onload_name = 111 ∷ 110 ∷ 108 ∷ 111 ∷ 97 ∷ 100 ∷ []

abbrev ten_text : List ℕ
ten_text = 49 ∷ 48 ∷ 46 ∷ 49 ∷ 46 ∷ 50 ∷ 46 ∷ 51 ∷ []

abbrev ten : List ℕ
ten = 10 ∷ 1 ∷ 2 ∷ 3 ∷ []

-- An `inet_pton` that knows that one address.
abbrev one_address : ℕ → List ℕ → Pton
one_address af text = if str_equal text ten_text then valid ten else invalid

abbrev entry : Entry
entry = record {
  text = ten_text;
  family = Family.v4;
  first = 10;
  second = 1;
  third = 2;
  fourth = 3;
  rest = [];
  mask_len = 24;
}

entry-IsEntry : IsEntry one_address entry
unfolding strchr
entry-IsEntry = record {
  reads = refl;
  of_family = refl;
  size = refl;
  chars = (refl, (refl, (refl, (refl, (refl, (refl, (refl, (refl, tt))))))));
  no_slash = (refl, (refl, (refl, (refl, (refl, (refl, (refl, (refl, tt))))))));
  short = omega arith;
  mask_fits = omega arith;
}

-- A list with a prefix of 192.168/16 that came earlier.
abbrev old_prefix : Prefix
old_prefix = record { bytes = 2 ∷ 16 ∷ 0 ∷ 0 ∷ replicate 16 0 }

abbrev old_lists : List PrefixList
old_lists = record { name = onload_name; entries = old_prefix ∷ [] } ∷ []

load_round_trip_example :
    (prefixes
        (onload_load_prefixes one_address onload_name
          (some (file_of (entry ∷ entry ∷ [])))
          old_lists).0
      ≡ push_all onload_name (map entry_prefix (entry ∷ entry ∷ [])) (prefixes old_lists))
    × ((onload_load_prefixes one_address onload_name
          (some (file_of (entry ∷ entry ∷ [])))
          old_lists).1
        ≡ loaded)
load_round_trip_example =
    load_round_trip one_address onload_name (entry ∷ entry ∷ []) old_lists
      (entry-IsEntry, (entry-IsEntry, tt))

-- "# c\n", " 10.1.2.3/24 # c\n", "10.1.2.3/240\n"
abbrev buffers : List (List ℕ)
buffers =
    (35 ∷ 32 ∷ 99 ∷ 10 ∷ [])
    ∷ (32 ∷ (ten_text ++ 47 ∷ 50 ∷ 52 ∷ 32 ∷ 35 ∷ 10 ∷ []))
    ∷ (ten_text ++ 47 ∷ 50 ∷ 52 ∷ 48 ∷ 10 ∷ [])
    ∷ []

accepted-buffers : accepted one_address buffers ≡ (entry_prefix entry ∷ [], einval)
unfolding accepted line_prefix read_prefix strchr
accepted-buffers = refl

fread_prefix-Agrees_example :
    Agrees one_address onload_name old_lists
      (onload_fread_prefix one_address onload_name buffers old_lists)
      (accepted one_address buffers)
fread_prefix-Agrees_example = fread_prefix-Agrees one_address onload_name buffers old_lists

onload_add_prefix-InFamily_example :
    AllStored InFamily (onload_add_prefix one_address onload_name ten_text old_lists).0
    × ((onload_add_prefix one_address onload_name ten_text old_lists).1 ≡ false
        → (onload_add_prefix one_address onload_name ten_text old_lists).0 ≡ old_lists)
onload_add_prefix-InFamily_example =
    onload_add_prefix-InFamily one_address onload_name ten_text old_lists
      ((prefix4 (omega arith) refl, tt), tt)

abbrev written : List ℕ
written = ten_text ++ 47 ∷ 50 ∷ 52 ∷ []

written_read : read_prefix one_address written ≡ some (entry_prefix entry)
unfolding read_prefix
written_read = refl

-- 10.1.2.3/24 is stored as 0.0.0.0/24.
read_prefix-shifted_example :
    from_fifth (entry_prefix entry).bytes ≡ overwrite (from_fifth ten) (replicate 16 0)
unfolding strchr
read_prefix-shifted_example =
    read_prefix-shifted one_address written ten (entry_prefix entry) refl (omega arith) written_read

token_end-skip_while_example :
    token_end 14 (ten_text ++ 32 ∷ 49 ∷ []) ≡ skip_while is_prefix_char (ten_text ++ 32 ∷ 49 ∷ [])
token_end-skip_while_example = token_end-skip_while 14 (ten_text ++ 32 ∷ 49 ∷ []) (omega arith)

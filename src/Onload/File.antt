-- ===== src/Onload/File.antt =====
-- src/onload.c: a file that lists prefixes, one on each line, is read back in full.
use flower_route.Base.{
  zero, suc, ◌+◌, ltb, leb, ℕ, ◌-◌, ◌%◌, ◌^◌, ◌≤◌, ◌<◌, ◌≡◌, refl, ap, ◌∙◌, Bool, true, false, not,
  some, List, [], ◌∷◌, ◌++◌, map, ◌==◌, length, length-append, All, arith,
}
use flower_route.Base.Chars.{is_digit, AllChars}
use flower_route.AfAddr.{replicate}
use flower_route.Codec.Pedit.{Family, af_no}
use flower_route.Onload.{
  Prefix, PrefixList, Pton, valid, overwrite, text_af, af_max_mask, read_prefix, parts_prefix,
  mask_part, network_part, checked_mask, prefix_of,
}
use flower_route.Onload.Lines.{line_prefix, buffer_size, fgets, onload_load_prefixes, loaded}
use flower_route.Onload.Store.{prefixes}
use flower_route.Onload.Tokens.{is_prefix_char}
use flower_route.Onload.Load.{then_prefix, then_line, push_all, accepted, fread_prefix-Agrees}
use flower_route.Onload.Print.{
  decimal_digits, length-decimal, newline, decimal, strtol-decimal, strchr-first, fgets-line,
  line_prefix-line,
}

-- A prefix as one writes it: the text of its network, its family, the bytes of its network address,
-- of which there are four or sixteen, and the length of the mask.
pub record Entry : Type 0 where
  pub text : List ℕ
  pub family : Family
  pub first : ℕ
  pub second : ℕ
  pub third : ℕ
  pub fourth : ℕ
  pub rest : List ℕ
  pub mask_len : ℕ

abbrev pub address : Entry → List ℕ
address e = e.first ∷ e.second ∷ e.third ∷ e.fourth ∷ e.rest

abbrev pub rest_size : Family → ℕ
rest_size Family.v4 = 0
rest_size Family.v6 = 12

abbrev pub entry_text : Entry → List ℕ
entry_text e = e.text ++ 47 ∷ decimal e.mask_len

abbrev pub file_of : List Entry → List ℕ
file_of [] = []
file_of (e ∷ es) = entry_text e ++ newline ∷ file_of es

-- The twenty bytes that are stored of it: the family, the mask, the padding with the third and the
-- fourth byte of the address, and in the place of the address its bytes from the fifth on, filled up
-- with zeros.
abbrev pub entry_prefix : Entry → Prefix
entry_prefix e = record {
  bytes =
      af_no e.family
      ∷ e.mask_len
      ∷ e.third
      ∷ e.fourth
      ∷ (e.rest ++ replicate (16 - rest_size e.family) 0);
}

overwrite-zeros :
    (n k : ℕ) (bs : List ℕ) → n ≡ length bs + k → overwrite bs (replicate n 0) ≡ bs ++ replicate k 0
overwrite-zeros n k [] e = ap (λ m. replicate m 0) (omega arith)
overwrite-zeros zero k (b ∷ bs) e = absurd (omega arith)
overwrite-zeros (suc n) k (b ∷ bs) e = ap (λ r. b ∷ r) (overwrite-zeros n k bs (omega arith))

rest_fits : (f : Family) (n : ℕ) → n ≡ rest_size f → 16 ≡ n + (16 - rest_size f)
rest_fits Family.v4 n e = omega arith
rest_fits Family.v6 n e = omega arith

module _ (inet_pton : ℕ → List ℕ → Pton) where
  -- `inet_pton` reads the text, which has the characters of an address and fits the buffer, and the
  -- mask fits the family.
  pub record IsEntry (e : Entry) : Type 0 where
    pub reads : inet_pton (text_af e.text) e.text ≡ valid (address e)
    pub of_family : text_af e.text ≡ af_no e.family
    pub size : length e.rest ≡ rest_size e.family
    pub chars : AllChars is_prefix_char e.text
    pub no_slash : AllChars (λ b. not (b == 47)) e.text
    pub short : length e.text ≤ 500
    pub mask_fits : e.mask_len ≤ af_max_mask (text_af e.text)

  max_mask_le : (af : ℕ) → af_max_mask af ≤ 128
  max_mask_le af = ground arith

  mask_part-decimal : (max m : ℕ) → m ≤ max → max ≤ 128 → mask_part max (some (decimal m)) ≡ some m
  unfolding mask_part
  mask_part-decimal max m h b =
      let same : m % 2 ^ 32 ≡ m = omega arith in
      let small : leb (2 ^ 31) m ≡ false = ground arith in
      let within : ltb max m ≡ false = ground arith in
      let fits : checked_mask max (m, []) ≡ some m = rw (same, small, within) in
      ap (checked_mask max) (strtol-decimal m (omega arith)) ∙ fits

  read_prefix-entry :
      (e : Entry) → IsEntry e → read_prefix inet_pton (entry_text e) ≡ some (entry_prefix e)
  unfolding read_prefix parts_prefix network_part
  read_prefix-entry e h =
      let af = text_af e.text in
      let written = overwrite e.rest (replicate 16 0) in
      ap (parts_prefix inet_pton) (strchr-first 47 e.text (decimal e.mask_len) h.no_slash)
      ∙ ap
          (λ r.
            prefix_of af (network_part r) (mask_part (af_max_mask af) (some (decimal e.mask_len))))
          h.reads
      ∙ ap (prefix_of af (some (overwrite (address e) (replicate 20 0))))
          (mask_part-decimal (af_max_mask af) e.mask_len h.mask_fits (max_mask_le af))
      ∙ ap (λ a. some (record { bytes = a ∷ e.mask_len ∷ e.third ∷ e.fourth ∷ written }))
          h.of_family
      ∙ ap (λ bs. some (record { bytes = af_no e.family ∷ e.mask_len ∷ e.third ∷ e.fourth ∷ bs }))
          (overwrite-zeros 16 (16 - rest_size e.family) e.rest
            (rest_fits e.family (length e.rest) h.size))

  AllChars-append :
      (f : ℕ → Bool) (s t : List ℕ) → AllChars f s → AllChars f t → AllChars f (s ++ t)
  AllChars-append f [] t hs ht = ht
  AllChars-append f (c ∷ cs) t hs ht = (hs.0, AllChars-append f cs t hs.1 ht)

  AllChars-mono :
      (f g : ℕ → Bool)
      → ((c : ℕ) → f c ≡ true → g c ≡ true)
      → (s : List ℕ) → AllChars f s
      → AllChars g s
  AllChars-mono f g sub [] h = tt
  AllChars-mono f g sub (c ∷ cs) h = (sub c h.0, AllChars-mono f g sub cs h.1)

  prefix_char_digit : (c : ℕ) → is_digit c ≡ true → is_prefix_char c ≡ true
  prefix_char_digit c e = ground arith

  prefix_char_newline : (c : ℕ) → is_prefix_char c ≡ true → not (c == newline) ≡ true
  prefix_char_newline c e = ground arith

  entry_text_chars : (e : Entry) → IsEntry e → AllChars is_prefix_char (entry_text e)
  entry_text_chars e h = AllChars-append is_prefix_char e.text (47 ∷ decimal e.mask_len) h.chars (
    refl,
    AllChars-mono is_digit is_prefix_char prefix_char_digit (decimal e.mask_len)
        (decimal_digits e.mask_len (omega (arith, h.mask_fits, max_mask_le (text_af e.text)))),
  )

  length-entry_text : (e : Entry) → IsEntry e → length (entry_text e) < 511
  length-entry_text e h =
      omega
        (arith, length-append e.text (47 ∷ decimal e.mask_len), h.short, length-decimal e.mask_len)

  line_prefix-text :
      (s : List ℕ)
      → 0 < length s
      → AllChars is_prefix_char s
      → line_prefix (s ++ newline ∷ []) ≡ some s
  line_prefix-text [] h all = let bad : ⊥ = omega arith in absurd bad
  line_prefix-text (c ∷ s) h all = line_prefix-line c s all

  -- The buffers of such a file are its lines, and each has its prefix.
  accepted-file :
      (es : List Entry)
      → All IsEntry es
      → accepted inet_pton (fgets (buffer_size - 1) [] (file_of es)) ≡ (map entry_prefix es, loaded)
  unfolding accepted fgets
  accepted-file [] h = refl
  accepted-file (e ∷ es) h =
      let text = entry_text e in
      let chars = entry_text_chars e h.0 in
      let long : 0 < length text = omega (arith, length-append e.text (47 ∷ decimal e.mask_len)) in
      let lines : fgets (buffer_size - 1) [] (text ++ newline ∷ file_of es)
          ≡ (text ++ newline ∷ []) ∷ fgets (buffer_size - 1) [] (file_of es) =
        fgets-line (buffer_size - 1) [] text (file_of es) (length-entry_text e h.0)
          (AllChars-mono is_prefix_char (λ b. not (b == newline)) prefix_char_newline text chars) in
      let rest = accepted inet_pton (fgets (buffer_size - 1) [] (file_of es)) in
      ap (accepted inet_pton) lines
      ∙ ap (λ o. then_line inet_pton o rest) (line_prefix-text text long chars)
      ∙ ap (λ o. then_prefix inet_pton o rest) (read_prefix-entry e h.0)
      ∙ ap (then_prefix inet_pton (some (entry_prefix e))) (accepted-file es h.1)

  -- A file that has one line for each of some prefixes, which `inet_pton` can read and whose masks
  -- fit, is loaded without an error, whatever was loaded before: the list of the name has, after its
  -- old prefixes, one for each line, in the order of the lines, with the family and the mask of the
  -- line and, as its address, the bytes of the line's address from the fifth on, filled up with
  -- zeros; other names find what they found.
  pub load_round_trip :
      (name : List ℕ) (es : List Entry) (ls : List PrefixList)
      → All IsEntry es
      → (prefixes (onload_load_prefixes inet_pton name (some (file_of es)) ls).0
          ≡ push_all name (map entry_prefix es) (prefixes ls))
        × ((onload_load_prefixes inet_pton name (some (file_of es)) ls).1 ≡ loaded)
  unfolding onload_load_prefixes
  load_round_trip name es ls h =
      let bufs = fgets (buffer_size - 1) [] (file_of es) in
      let (same, result) = fread_prefix-Agrees inet_pton name bufs ls in
      let e = accepted-file es h in
      (same ∙ ap (λ a. push_all name a.0 (prefixes ls)) e, result ∙ ap (λ a. a.1) e)

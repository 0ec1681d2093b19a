-- ===== src/Onload/Bounds.antt =====
-- src/onload.c: what `onload_add_prefix` makes of a prefix's text, in the order of the bytes.
use flower_route.Base.{
  ℕ, suc, ◌≤◌, ◌≡◌, refl, sym, ap, ◌∙◌, false, Option, none, some, List, [], ◌∷◌, ◌⊎◌, inl, inr,
  Bool-cases, Option-cases, is_some, length, arith,
}
use flower_route.Base.Chars.{strtol, strchr}
use flower_route.AfAddr.{af_inet, af_inet6, replicate}
use flower_route.Onload.{
  parts_prefix, Prefix, PrefixList, Pton, valid, invalid, unsupported, overwrite, network_part,
  mask_part, checked_mask, af_max_mask, set_af_mask, prefix_of, text_af, read_prefix,
  onload_add_prefix,
}
use flower_route.Onload.Store.{AllStored, store-AllStored}

-- The twenty bytes of a prefix of one of the two families, with a mask that fits the family.
pub data InFamily : Prefix → Type 0 where
  prefix4 :
      {m a b : ℕ} {addr : List ℕ}
      → m ≤ 32
      → length addr ≡ 16
      → InFamily (record { bytes = 2 ∷ m ∷ a ∷ b ∷ addr })
  prefix6 :
      {m a b : ℕ} {addr : List ℕ}
      → m ≤ 128
      → length addr ≡ 16
      → InFamily (record { bytes = 10 ∷ m ∷ a ∷ b ∷ addr })

length-overwrite : (bs old : List ℕ) → length (overwrite bs old) ≡ length old
length-overwrite [] old = refl
length-overwrite (b ∷ bs) [] = refl
length-overwrite (b ∷ bs) (o ∷ old) = ap suc (length-overwrite bs old)

checked_mask_le : (max : ℕ) (r : ℕ × List ℕ) (m : ℕ) → checked_mask max r ≡ some m → m ≤ max
checked_mask_le max (v, c ∷ cs) m e = cc
checked_mask_le max (v, []) m e = ground arith

mask_part_le : (max : ℕ) (s : Option (List ℕ)) (m : ℕ) → mask_part max s ≡ some m → m ≤ max
unfolding mask_part
mask_part_le max none m e = grind arith
mask_part_le max (some s) m e = checked_mask_le max (strtol s) m e

length-network_part : (r : Pton) (bs : List ℕ) → network_part r ≡ some bs → length bs ≡ 20
unfolding network_part
length-network_part (valid written) bs e =
    let same : overwrite written (replicate 20 0) ≡ bs = cc in
    sym (ap length same) ∙ length-overwrite written (replicate 20 0)
length-network_part invalid bs e = cc
length-network_part unsupported bs e = let same : replicate 20 0 ≡ bs = cc in sym (ap length same)

-- The address that the rest of the program reads: from the fifth byte on.
abbrev pub from_fifth : List ℕ → List ℕ
from_fifth (_ ∷ _ ∷ _ ∷ _ ∷ rest) = rest
from_fifth bs = []

family_InFamily :
    (af m : ℕ) (bs : List ℕ)
    → (af ≡ af_inet) ⊎ (af ≡ af_inet6)
    → m ≤ af_max_mask af
    → length bs ≡ 20
    → InFamily (record { bytes = set_af_mask af m bs })
family_InFamily af m [] f le len = let bad : ⊥ = omega arith in absurd bad
family_InFamily af m (a ∷ []) f le len = let bad : ⊥ = omega arith in absurd bad
family_InFamily af m (a ∷ b ∷ []) f le len = let bad : ⊥ = omega arith in absurd bad
family_InFamily af m (a ∷ b ∷ c ∷ []) f le len = let bad : ⊥ = omega arith in absurd bad
family_InFamily af m (a ∷ b ∷ c ∷ d ∷ rest) (inl e) le len =
    let le' : m ≤ 32 = rw e at le in rw (e) (prefix4 le' (omega arith))
family_InFamily af m (a ∷ b ∷ c ∷ d ∷ rest) (inr e) le len =
    let le' : m ≤ 128 = rw e at le in rw (e) (prefix6 le' (omega arith))

text_af_cases : (s : List ℕ) → (text_af s ≡ af_inet) ⊎ (text_af s ≡ af_inet6)
text_af_cases s = elim (Bool-cases (is_some (strchr 58 s).1)) [
  | inl e ↦ inr (rw (e))
  | inr e ↦ inl (rw (e))
]

prefix_of-some :
    (af : ℕ) (n : Option (List ℕ)) (m : Option ℕ) (pfx : Prefix)
    → prefix_of af n m ≡ some pfx
    → (bs : List ℕ) × (k : ℕ) × (n ≡ some bs)
      × (m ≡ some k)
      × (pfx ≡ record { bytes = set_af_mask af k bs })
prefix_of-some af (some bs) (some k) pfx e = (bs, k, refl, refl, cc)
prefix_of-some af none m pfx e = cc
prefix_of-some af (some bs) none pfx e = cc

module _ (inet_pton : ℕ → List ℕ → Pton) where
  read_prefix-InFamily :
      (addr : List ℕ) (pfx : Prefix) → read_prefix inet_pton addr ≡ some pfx → InFamily pfx
  unfolding read_prefix parts_prefix
  read_prefix-InFamily addr pfx e =
      let ipstr = (strchr 47 addr).0 in
      let af = text_af ipstr in
      let (bs, k, en, em, ep) =
        prefix_of-some af (network_part (inet_pton af ipstr))
          (mask_part (af_max_mask af) (strchr 47 addr).1) pfx e in
      rw (ep) (
        family_InFamily af k bs (text_af_cases ipstr)
          (mask_part_le (af_max_mask af) (strchr 47 addr).1 k em)
          (length-network_part (inet_pton af ipstr) bs en))

  -- Whatever text it is given, and whatever `inet_pton` makes of it, adding a prefix keeps every
  -- stored prefix one of twenty bytes, of the family IPv4 with a mask of at most 32 or IPv6 with one
  -- of at most 128; and where it fails, the lists are as before.
  pub onload_add_prefix-InFamily :
      (name addr : List ℕ) (ls : List PrefixList)
      → AllStored InFamily ls
      → AllStored InFamily (onload_add_prefix inet_pton name addr ls).0
        × ((onload_add_prefix inet_pton name addr ls).1 ≡ false
            → (onload_add_prefix inet_pton name addr ls).0 ≡ ls)
  unfolding onload_add_prefix
  onload_add_prefix-InFamily name addr ls h = elim (Option-cases (read_prefix inet_pton addr)) [
    | inl e ↦ rw (e) (h, λ _. refl)
    | inr (pfx, e) ↦
        rw (e) (store-AllStored InFamily name pfx ls (read_prefix-InFamily addr pfx e) h, λ bad. cc)
  ]

  shifted :
      (af k : ℕ) (bs : List ℕ)
      → 4 ≤ length bs
      → from_fifth (set_af_mask af k (overwrite bs (replicate 20 0)))
        ≡ overwrite (from_fifth bs) (replicate 16 0)
  shifted af k [] h = let bad : ⊥ = omega arith in absurd bad
  shifted af k (a ∷ []) h = let bad : ⊥ = omega arith in absurd bad
  shifted af k (a ∷ b ∷ []) h = let bad : ⊥ = omega arith in absurd bad
  shifted af k (a ∷ b ∷ c ∷ []) h = let bad : ⊥ = omega arith in absurd bad
  shifted af k (a ∷ b ∷ c ∷ d ∷ rest) h = refl

  -- A prefix whose network part `inet_pton` reads as at least four bytes `bs` is stored without the
  -- first four of them: its address starts with the fifth, and the rest is 0.
  pub read_prefix-shifted :
      (addr bs : List ℕ) (pfx : Prefix)
      → inet_pton (text_af (strchr 47 addr).0) (strchr 47 addr).0 ≡ valid bs
      → 4 ≤ length bs
      → read_prefix inet_pton addr ≡ some pfx
      → from_fifth pfx.bytes ≡ overwrite (from_fifth bs) (replicate 16 0)
  unfolding read_prefix parts_prefix network_part
  read_prefix-shifted addr bs pfx v len e =
      let ipstr = (strchr 47 addr).0 in
      let af = text_af ipstr in
      let (bs', k, en, em, ep) =
        prefix_of-some af (network_part (inet_pton af ipstr))
          (mask_part (af_max_mask af) (strchr 47 addr).1) pfx e in
      let written : some (overwrite bs (replicate 20 0)) ≡ some bs' = rw v at en in
      let same : overwrite bs (replicate 20 0) ≡ bs' = cc in
      ap (λ p. from_fifth p.bytes) ep
      ∙ ap (λ x. from_fifth (set_af_mask af k x)) (sym same)
      ∙ shifted af k bs len

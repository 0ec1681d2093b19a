-- ===== src/Links/Fields.antt =====
-- src/obj_link.c: what a message leaves in the link, and when it counts as a change.
use flower_route.Base.{
  zero, suc, ◌↔◌, ==_iff, ℕ, ◌≡◌, refl, sym, ap, ◌∙◌, true, Ordering, Ordering-cases, Option, none,
  some, List, [], ◌∷◌, inl, inr, Bool-cases, ◌==◌, length, All, arith,
}
use flower_route.Base.Chars.{str_equal_refl, str_equal, str_equal→≡}
use flower_route.AfAddr.{replicate}
use flower_route.Keys.{memcmp}
use flower_route.Keys.Orders.{memcmp-IsOrder}
use flower_route.Links.{Link, LinkInfo, nonzero, lladdr_set, ifname_set, field_changes, set_info}

-- The six bytes that a message stands for; without an address they are 0.
abbrev pub bytes_of : Option (List ℕ) → List ℕ
bytes_of none = replicate 6 0
bytes_of (some bs) = bs

abbrev pub IsLladdr : List ℕ → Type 0
IsLladdr bs = length bs ≡ 6

-- The link says what the message says.
pub record Says (i : LinkInfo) (l : Link) : Type 0 where
  pub lladdr : l.lladdr ≡ bytes_of i.lladdr
  pub lower_ifindex : l.lower_ifindex ≡ i.lower_ifindex
  pub vlan_id : l.vlan_id ≡ i.vlan_id
  pub mtu : l.mtu ≡ i.mtu
  pub ifname : l.ifname ≡ i.ifname

pub lladdr_set-bytes_of :
    (dst : List ℕ) (src : Option (List ℕ))
    → IsLladdr dst
    → IsLladdr (bytes_of src)
    → (lladdr_set dst src).0 ≡ bytes_of src
unfolding lladdr_set
lladdr_set-bytes_of dst none h h' = refl
lladdr_set-bytes_of dst (some src) h h' = elim (Ordering-cases (memcmp dst src)) [
  | inl e ↦ rw (e)
  | inr (inl e) ↦ rw (e) ((memcmp-IsOrder 6).eq_of dst src h h' e)
  | inr (inr e) ↦ rw (e)
]

ifname_set_lem : (dst src : Option (List ℕ)) → (ifname_set dst src).0 ≡ src
unfolding ifname_set
ifname_set_lem none none = refl
ifname_set_lem (some dst) none = refl
ifname_set_lem none (some src) = refl
ifname_set_lem (some dst) (some src) = elim (Bool-cases (str_equal dst src)) [
  | inl e ↦ rw (e) (ap some (str_equal→≡ dst src e))
  | inr e ↦ rw (e)
]

pub set_info-Says :
    (i : LinkInfo) (l : Link)
    → IsLladdr l.lladdr
    → IsLladdr (bytes_of i.lladdr)
    → Says i (set_info i l).0
unfolding set_info
set_info-Says i l h h' = record {
  lladdr = lladdr_set-bytes_of l.lladdr i.lladdr h h';
  lower_ifindex = refl;
  vlan_id = refl;
  mtu = refl;
  ifname = ifname_set_lem l.ifname i.ifname;
}

nonzero-zero : (bs : List ℕ) → nonzero bs ≡ 0 → All (λ b. b ≡ 0) bs
unfolding nonzero
nonzero-zero [] e = tt
nonzero-zero (b ∷ bs) e = elim (Bool-cases (b == 0)) [
  | inl h ↦
      let rest : nonzero bs ≡ 0 = omega (arith, rw h at e) in
      ((==_iff b 0).0 h, nonzero-zero bs rest)
  | inr h ↦ let bad : ⊥ = omega (arith, rw h at e) in absurd bad
]

zeros : (n : ℕ) (bs : List ℕ) → length bs ≡ n → All (λ b. b ≡ 0) bs → bs ≡ replicate n 0
zeros zero [] e h = refl
zeros zero (b ∷ bs) e h = let bad : ⊥ = omega arith in absurd bad
zeros (suc n) [] e h = let bad : ⊥ = omega arith in absurd bad
zeros (suc n) (b ∷ bs) e h = ap (λ x. x ∷ bs) h.0 ∙ ap (λ xs. 0 ∷ xs) (zeros n bs (omega arith) h.1)

-- Nothing has changed exactly where the link says what the message says already.
pub lladdr_unchanged :
    (dst : List ℕ) (src : Option (List ℕ))
    → IsLladdr dst
    → IsLladdr (bytes_of src)
    → ((lladdr_set dst src).1 ≡ 0) ↔ (dst ≡ bytes_of src)
unfolding lladdr_set nonzero
lladdr_unchanged dst none h h' = (λ e. zeros 6 dst h (nonzero-zero dst e), λ e. ap nonzero e)
lladdr_unchanged dst (some src) h h' = elim (Ordering-cases (memcmp dst src)) [
  | inl e ↦ rw (e) (
    λ z. absurd (omega (arith, z)),
    λ s.
        let same : memcmp dst src ≡ Ordering.eq =
          ap (memcmp dst) (sym s) ∙ (memcmp-IsOrder 6).self dst h in
        cc,
  )
  | inr (inl e) ↦ rw (e) (λ z. (memcmp-IsOrder 6).eq_of dst src h h' e, λ s. refl)
  | inr (inr e) ↦ rw (e) (
    λ z. absurd (omega (arith, z)),
    λ s.
        let same : memcmp dst src ≡ Ordering.eq =
          ap (memcmp dst) (sym s) ∙ (memcmp-IsOrder 6).self dst h in
        cc,
  )
]

ifname_unchanged : (dst src : Option (List ℕ)) → ((ifname_set dst src).1 ≡ 0) ↔ (dst ≡ src)
unfolding ifname_set
ifname_unchanged none none = (λ e. refl, λ e. refl)
ifname_unchanged (some dst) none = (λ e. absurd (omega (arith, e)), λ e. cc)
ifname_unchanged none (some src) = (λ e. absurd (omega (arith, e)), λ e. cc)
ifname_unchanged (some dst) (some src) = elim (Bool-cases (str_equal dst src)) [
  | inl e ↦ rw (e) (λ z. ap some (str_equal→≡ dst src e), λ s. refl)
  | inr e ↦ rw (e) (
    λ z. absurd (omega (arith, z)),
    λ s.
        let one : dst ≡ src = cc in
        let same : str_equal dst src ≡ true = ap (str_equal dst) (sym one) ∙ str_equal_refl dst in
        cc,
  )
]

field_unchanged : (old new : ℕ) → (field_changes old new ≡ 0) ↔ (old ≡ new)
field_unchanged old new = ground arith

pub set_info-unchanged :
    (i : LinkInfo) (l : Link)
    → IsLladdr l.lladdr
    → IsLladdr (bytes_of i.lladdr)
    → ((set_info i l).1 ≡ 0) ↔ Says i l
unfolding set_info
set_info-unchanged i l h h' =
    let a = lladdr_unchanged l.lladdr i.lladdr h h' in
    let b = ifname_unchanged l.ifname i.ifname in
    let c = field_unchanged l.lower_ifindex i.lower_ifindex in
    let d = field_unchanged l.mtu i.mtu in
    let e = field_unchanged l.vlan_id i.vlan_id in
    (
      λ z. record {
        lladdr = a.0 (omega (arith, z));
        lower_ifindex = c.0 (omega (arith, z));
        vlan_id = e.0 (omega (arith, z));
        mtu = d.0 (omega (arith, z));
        ifname = b.0 (omega (arith, z));
      },
      λ s. omega (arith, a.1 s.lladdr, b.1 s.ifname, c.1 s.lower_ifindex, d.1 s.mtu, e.1 s.vlan_id),
    )

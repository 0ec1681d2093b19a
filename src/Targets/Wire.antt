-- ===== src/Targets/Wire.antt =====
-- The rules of targets and routes against what a netlink message can carry.
use flower_route.Base.{
  ℕ, ◌+◌, ◌*◌, ◌^◌, ◌<◌, ◌≡◌, ◌≢◌, ◌/◌, ◌%◌, sym, ap, ◌∙◌, [], ◌∷◌, ◌++◌, refl, true, false, none,
  some, List, ◌==◌, ==_iff, inl, inr, ◌⊎◌, Bool-cases, arith,
}
use flower_route.Base.Bytes.{bytes32, load16, load32}
use flower_route.Ret.{ok}
use flower_route.AfAddr.{AfAddr}
use flower_route.TcRule.{TcRule, tc_rule_init, tc_rule_set_type_and_traits}
use flower_route.Codec.Pedit.{Family, af_no}
use flower_route.Codec.Wire.{forward_rule, goto_rule, IsPrefix, IsWire}
use flower_route.Rules.{Rule, ok_state, ◌is◌}
use flower_route.Targets.{
  from_third, from_fifth, is_lladdr_zero, obj_target_prepare_rule, obj_route_prepare_rule,
}

-- The six bytes of a link layer address.
pub data IsMac : List ℕ → Type 0 where
  mac :
      (a b c d e f : ℕ)
      → a < 256
      → b < 256
      → c < 256
      → d < 256
      → e < 256
      → f < 256
      → IsMac (a ∷ b ∷ c ∷ d ∷ e ∷ f ∷ [])

abbrev pub zero_mac : List ℕ
zero_mac = 0 ∷ 0 ∷ 0 ∷ 0 ∷ 0 ∷ 0 ∷ []

-- The VLAN number of a rule, and the twelve bytes of its `lladdr`, the destination first.
pub record Forwards (vlan_id : ℕ) (src dst : List ℕ) (tcr : TcRule) : Type 0 where
  pub vlan : tcr.vlan_id ≡ vlan_id
  pub lladdrs : bytes32 tcr.raw0 ++ (bytes32 tcr.raw1 ++ bytes32 tcr.raw2) ≡ dst ++ src

is_zero : (bs : List ℕ) → IsMac bs → is_lladdr_zero bs ≡ true → bs ≡ zero_mac
is_zero _ (mac a b c d e f ha hb hc hd he hf) h =
    let e0 : a ≡ 0 = ground arith in
    let e1 : b ≡ 0 = ground arith in
    let e2 : c ≡ 0 = ground arith in
    let e3 : d ≡ 0 = ground arith in
    let e4 : e ≡ 0 = ground arith in let e5 : f ≡ 0 = ground arith in rw (e0, e1, e2, e3, e4, e5)

not_zero : (bs : List ℕ) → is_lladdr_zero bs ≡ false → bs ≢ zero_mac
not_zero bs h e = let bad : true ≡ false = ap is_lladdr_zero (sym e) ∙ h in cc

not_equal : (a b : ℕ) → (a == b) ≡ false → a ≢ b
not_equal a b e = ground arith

bytes32-four :
    (v a b c d : ℕ)
    → a < 256
    → b < 256
    → c < 256
    → d < 256
    → v ≡ a + b * 256 + c * 65536 + d * 16777216
    → bytes32 v ≡ a ∷ b ∷ c ∷ d ∷ []
bytes32-four v a b c d ha hb hc hd e =
    let e0 : v % 256 ≡ a = omega arith in
    let e1 : v / 256 % 256 ≡ b = omega arith in
    let e2 : v / 65536 % 256 ≡ c = omega arith in
    let e3 : v / 16777216 % 256 ≡ d = omega arith in rw (e0, e1, e2, e3)

append_three :
    {xs xs' ys ys' zs zs' : List ℕ}
    → xs ≡ xs'
    → ys ≡ ys'
    → zs ≡ zs'
    → xs ++ (ys ++ zs) ≡ xs' ++ (ys' ++ zs')
append_three {xs} {xs'} {ys} {ys'} {zs} {zs'} p q r =
    ap (λ x. x ++ (ys ++ zs)) p ∙ ap (λ y. xs' ++ (y ++ zs)) q ∙ ap (λ z. xs' ++ (ys' ++ z)) r

three_words :
    (src dst : List ℕ)
    → IsMac src
    → IsMac dst
    → bytes32 (load32 dst)
        ++ (bytes32 (load16 (from_fifth dst) + load16 src * 2 ^ 16)
            ++ bytes32 (load32 (from_third src)))
      ≡ dst ++ src
unfolding load16 load32
three_words _ _ (mac a b c d e f ha hb hc hd he hf)
      (mac a' b' c' d' e' f' ha' hb' hc' hd' he' hf') =
    let w0 =
      bytes32-four (a' + b' * 256 + c' * 65536 + d' * 16777216) a' b' c' d' ha' hb' hc' hd' refl in
    let w1 =
      bytes32-four (e' + f' * 256 + (a + b * 256) * 65536) e' f' a b he' hf' ha hb (omega arith) in
    let w2 = bytes32-four (c + d * 256 + e * 65536 + f * 16777216) c d e f hc hd he hf refl in
    append_three w0 w1 w2

module _ (flags : ℕ) (hf : flags < 2 ^ 32) where
  abbrev made_rule : Family → ℕ → (src dst : List ℕ) → TcRule
  made_rule f vlan_id src dst =
      forward_rule f flags vlan_id (load32 dst) (load16 (from_fifth dst) + load16 src * 2 ^ 16)
        (load32 (from_third src))

  prepared :
      (f : Family) (vlan_id : ℕ) (src dst : List ℕ)
      → (vlan_id == 0) ≡ false
      → is_lladdr_zero src ≡ false
      → is_lladdr_zero dst ≡ false
      → obj_target_prepare_rule flags vlan_id src dst (af_no f)
        ≡ ok (some (made_rule f vlan_id src dst))
  unfolding obj_target_prepare_rule tc_rule_init tc_rule_set_type_and_traits
  prepared Family.v4 vlan_id src dst e h h' = rw e (rw h (rw h'))
  prepared Family.v6 vlan_id src dst e h h' = rw e (rw h (rw h'))

  -- A target asks for no rule exactly where its link has no VLAN or one of the two addresses is
  -- zero. Otherwise, for a neighbour of IPv4 or IPv6 and a 16-bit VLAN number, its rule is made
  -- without a failed assertion, a message carries it in full, and it has the VLAN number, the
  -- neighbour's address as the destination and the link's as the source.
  pub obj_target_prepare_rule-IsWire :
      (f : Family) (vlan_id : ℕ) (src dst : List ℕ)
      → vlan_id < 2 ^ 16
      → IsMac src
      → IsMac dst
      → ((obj_target_prepare_rule flags vlan_id src dst (af_no f) ≡ ok none)
          × ((vlan_id ≡ 0) ⊎ ((src ≡ zero_mac) ⊎ (dst ≡ zero_mac))))
        ⊎ ((vlan_id ≢ 0)
            × (src ≢ zero_mac)
            × (dst ≢ zero_mac)
            × ((tcr : TcRule) × (obj_target_prepare_rule flags vlan_id src dst (af_no f)
                  ≡ ok (some tcr))
                × IsWire tcr
                × Forwards vlan_id src dst tcr))
  unfolding obj_target_prepare_rule
  obj_target_prepare_rule-IsWire f vlan_id src dst small hs hd = elim (Bool-cases (vlan_id == 0)) [
    | inl e ↦ inl (rw (e), inl ((==_iff vlan_id 0).0 e))
    | inr e ↦ elim (Bool-cases (is_lladdr_zero src)) [
      | inl h ↦ inl (rw (e, h), inr (inl (is_zero src hs h)))
      | inr h ↦ elim (Bool-cases (is_lladdr_zero dst)) [
        | inl h' ↦ inl (rw (e, h, h'), inr (inr (is_zero dst hd h')))
        | inr h' ↦ inr (
          not_equal vlan_id 0 e,
          not_zero src h,
          not_zero dst h',
          (
            made_rule f vlan_id src dst,
            prepared f vlan_id src dst e h h',
            IsWire.forwards f flags vlan_id _ _ _ hf (ground arith) small,
            record { vlan = refl; lladdrs = three_words src dst hs hd },
          ),
        )
      ]
    ]
  ]

  -- A route's rule, for a prefix that a message can carry, goes to the chain of its target's rule,
  -- and a message carries it in full, if that rule is in the state ok and its chain is below 2 ^ 28.
  pub obj_route_prepare_rule-IsWire :
      (dst : AfAddr) (r : Rule)
      → IsPrefix dst
      → (r.state is ok_state) ≡ true
      → r.chain_no < 2 ^ 28
      → (tcr : TcRule) × (obj_route_prepare_rule flags dst r ≡ ok tcr)
        × IsWire tcr
        × (tcr.goto_target ≡ r.chain_no)
        × (tcr.af_addr ≡ dst)
  unfolding obj_route_prepare_rule tc_rule_init tc_rule_set_type_and_traits
  obj_route_prepare_rule-IsWire dst r p e small =
      (goto_rule dst flags r.chain_no, rw (e), IsWire.gotos flags r.chain_no hf small p, refl, refl)

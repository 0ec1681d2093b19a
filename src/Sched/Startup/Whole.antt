-- ===== src/Sched/Startup/Whole.antt =====
-- `sched_basic_initial_requests` of src/sched_basic.c from an empty store of rules.
use flower_route.Base.{
  ap, some, All-mono, ℕ, ◌+◌, ◌^◌, ◌≤◌, ◌<◌, ◌≡◌, refl, ◌∙◌, List, [], inl, inr, Option-cases, All,
  length, arith,
}
use flower_route.Ret.{ok}
use flower_route.TcRule.{TcRule}
use flower_route.Obj.{ObjMode}
use flower_route.Keys.{u32cmp, u16cmp, position_cmp}
use flower_route.Search.{lookup, Tree, leaf, RbTree, in_order}
use flower_route.Rules.{Rule, Call}
use flower_route.Codec.Pedit.{Family}
use flower_route.Codec.Wire.{trap_rule, family_addr, goto_rule, ttl_rule}
use flower_route.Onload.{Prefix, PrefixList, lookup_prefix_list}
use flower_route.Onload.Store.{prefixes}
use flower_route.Onload.Bounds.{InFamily}
use flower_route.Places.{position, get_af_chain}
use flower_route.Sched.{request_onload_rule, request_af_goto_rule, request_ttl_check}
use flower_route.Sched.Prefixes.{prefix_addr, sched_basic_place_prefix_list}
use flower_route.Sched.Prefixes.Table.{IsPlaceTable}
use flower_route.Sched.Prefixes.Placed.{HasRule, place_prefixes-HasRule}
use flower_route.Sched.Startup.{
  onload_name, at, sched_basic_initial_requests, place_static, HasStatic-Keeps, unicast, HasFour,
  HasFour-Keeps,
}

module _ (image : TcRule → List ℕ) (mode : ObjMode) (pin : ℕ) (rb : RbTree Rule) (flags : ℕ) where
  empty-IsPlaceTable : IsPlaceTable 6 leaf
  empty-IsPlaceTable = record { search = record { sorted = tt; fit = tt }; ends = tt }

  first_four :
      (in6 : List ℕ) (lists : List PrefixList)
      → (tree : Tree Rule) × (calls : List Call) × (sched_basic_initial_requests image mode pin rb
            flags in6 lists
            (leaf, [])
          ≡ sched_basic_place_prefix_list image mode pin rb flags 10 onload_name lists
              (tree, calls))
        × IsPlaceTable 10 tree
        × (length (in_order tree) ≡ 4)
        × HasFour image mode pin rb flags in6 tree
  unfolding sched_basic_initial_requests request_af_goto_rule request_ttl_check u32cmp u16cmp lookup
      position_cmp
  first_four in6 lists =
      let (t1, c1, s1, p1) =
        place_static image mode pin rb flags 6 0 1 (goto_rule (family_addr Family.v4) flags 1) leaf
          [] empty-IsPlaceTable (omega arith) (omega arith) refl in
      let (t2, c2, s2, p2) =
        place_static image mode pin rb flags 7 0 2
          (goto_rule (unicast image mode pin rb flags in6) flags 2) t1 c1 p1.table (omega arith)
          (omega arith) (p1.later (at 0 2) (omega arith) refl) in
      let (t3, c3, s3, p3) =
        place_static image mode pin rb flags 8 1 1 (ttl_rule Family.v4 flags) t2 c2 p2.table
          (omega arith) (omega arith)
          (p2.later (at 1 1) (omega arith) refl ∙ p1.later (at 1 1) (omega arith) refl) in
      let (t4, c4, s4, p4) =
        place_static image mode pin rb flags 9 2 1 (ttl_rule Family.v6 flags) t3 c3 p3.table
          (omega arith) (omega arith)
          (p3.later (at 2 1) (omega arith) refl
            ∙ p2.later (at 2 1) (omega arith) refl
            ∙ p1.later (at 2 1) (omega arith) refl) in
      (
        t4,
        c4,
        rw s1 (rw s2 (rw s3 (rw s4 refl))),
        p4.table,
        omega (arith, p1.one_more, p2.one_more, p3.one_more, p4.one_more),
        record {
          ip4 = HasStatic-Keeps image mode pin rb flags t3 t4 0 1 _ (omega arith) p4.keeps (
              HasStatic-Keeps image mode pin rb flags t2 t3 0 1 _ (omega arith) p3.keeps (
                HasStatic-Keeps image mode pin rb flags t1 t2 0 1 _ (omega arith) p2.keeps p1.has));
          ip6 =
              HasStatic-Keeps image mode pin rb flags t3 t4 0 2 _ (omega arith) p4.keeps
                (HasStatic-Keeps image mode pin rb flags t2 t3 0 2 _ (omega arith) p3.keeps p2.has);
          ttl4 = HasStatic-Keeps image mode pin rb flags t3 t4 1 1 _ (omega arith) p4.keeps p3.has;
          ttl6 = p4.has;
        },
      )

  -- In the chain of the prefix's family, at a priority of at least 10, a rule that wants to trap it.
  abbrev pub HasTrap : Tree Rule → Prefix → Type 0
  HasTrap tree pfx =
      (r : Rule) × (lookup position position_cmp (position r) tree ≡ some r)
      × (get_af_chain (prefix_addr pfx).af ≡ ok r.chain_no)
      × (10 ≤ r.prio)
      × (r.wanted ≡ some (trap_rule (prefix_addr pfx) flags))

  HasRule-HasTrap :
      (tree : Tree Rule) (pfx : Prefix)
      → HasRule image mode pin rb flags 10 tree pfx
      → HasTrap tree pfx
  unfolding request_onload_rule
  HasRule-HasTrap tree pfx (r, of, found) =
      let asked : ok (trap_rule (prefix_addr pfx) flags) ≡ ok of.tcr = of.requested in
      let same : of.tcr ≡ trap_rule (prefix_addr pfx) flags = cc in
      (r, found, of.chain, of.least, of.wants ∙ ap some same)

  -- What the start leaves in the positional tree.
  pub record Started (in6 : List ℕ) (lists : List PrefixList) (tree : Tree Rule) : Type 0 where
    pub four : HasFour image mode pin rb flags in6 tree
    pub configured : All (HasTrap tree) (prefixes lists onload_name)
    pub count : length (in_order tree) ≡ 4 + length (prefixes lists onload_name)

  -- From an empty positional tree, with configured prefixes of the two families that leave room for
  -- their priorities, the first requests return without a failed assertion. Afterwards the tree has
  -- the rules that send IPv4 to chain 1 and the IPv6 unicast image mode pin rb flags prefix to chain 2, at the priorities 1
  -- and 2 of chain 0, the checks of the TTL at priority 1 of the two chains, and for each prefix of
  -- the list "onload" a rule that traps it, in the chain of its family, at a priority of
  -- at least 10, and no other rule.
  pub initial_requests-Started :
      (in6 : List ℕ) (lists : List PrefixList)
      → All InFamily (prefixes lists onload_name)
      → 10 + length (prefixes lists onload_name) < 2 ^ 16
      → (tree : Tree Rule) × (calls : List Call) × (sched_basic_initial_requests image mode pin rb
            flags in6 lists
            (leaf, [])
          ≡ ok (tree, calls))
        × Started in6 lists tree
  unfolding sched_basic_place_prefix_list prefixes
  initial_requests-Started in6 lists f small =
      let (t4, c4, start, table, n4, four) = first_four in6 lists in
      elim (Option-cases (lookup_prefix_list onload_name lists)) [
        | inl e ↦ (
          t4,
          c4,
          start ∙ rw (sched_basic_place_prefix_list, e) refl,
          record { four = four; configured = rw e tt; count = rw e (omega (arith, n4)) },
        )
        | inr (l, e) ↦
            let (tree, calls, steps, t', n, keeps, rules) =
              place_prefixes-HasRule image mode pin rb flags 10 10 l.entries t4 c4 (rw e at f) table
                (omega arith) (rw e at small) in
            (
              tree,
              calls,
              start ∙ rw (sched_basic_place_prefix_list, e) steps,
              record {
                four = HasFour-Keeps image mode pin rb flags in6 t4 tree keeps four;
                configured = rw e (All-mono _ _ (HasRule-HasTrap tree) l.entries rules);
                count = rw e (omega (arith, n, n4));
              },
            )
      ]

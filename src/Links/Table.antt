-- ===== src/Links/Table.antt =====
-- src/obj_link.c: the table of links as a map from indexes to what was said last.
use mathlib.Core.Option
use mathlib.Core.Path.{subst}
use flower_route.Base.{
  ==_iff, ltb→lt, ℕ, ◌≡◌, ◌⊎◌, refl, sym, ap, ◌∙◌, true, false, Ordering, Option, Option-cases,
  none, some, List, [], map, inl, inr, Bool-cases, ◌==◌, ltb, if_equal, length, arith,
}
use flower_route.Ret.{ok}
use flower_route.Keys.Orders.{ifindex_cmp_lem, ifindex_cmp-IsOrder}
use flower_route.Search.{Tree, RbTree, in_order, lookup, update}
use flower_route.Search.Insert.{insert-IsSearch, insert-in_order, lookup-insert}
use flower_route.Search.Update.{update-IsSearch, lookup-update}
use flower_route.Obj.{ObjMode, ObjKind, kind_no}
use flower_route.Links.{
  installed, Link, LinkInfo, Call, obj_neigh_link_update, set_info, new_link, link_cmp,
  obj_link_lookup, obj_link_insert, obj_link_new, obj_link_update, update_link, dispatch_link,
  obj_link_netlink_update, rtm_dellink,
}
use flower_route.Links.Fields.{Says, IsLladdr, bytes_of, set_info-Says, set_info-unchanged}
use flower_route.Links.Stored.{index, IsLink, IsTable, place-All, update-All, found_link}

module _ (rb : RbTree Link) (rb_erase : ℕ → Tree Link → Tree Link) (mode : ObjMode) (ifindex : ℕ)
    (i : LinkInfo) (t : Tree Link) where
  -- What a message of a link leaves, by the link that was there.
  pub record Noted (before : Option Link) (t' : Tree Link) (calls : List Call) : Type 0 where
    pub table : IsTable t'
    pub link : Link
    pub found : obj_link_lookup ifindex t' ≡ some link
    pub says : Says i link
    pub others : (j : ℕ) → (j == ifindex) ≡ false → obj_link_lookup j t' ≡ obj_link_lookup j t
    pub told :
        ((before ≡ none) × (calls ≡ []))
        ⊎ ((l : Link) × (before ≡ some l)
            × ((Says i l × (calls ≡ []))
                ⊎ ((¬ Says i l) × (calls ≡ map obj_neigh_link_update l.fdb))))

  other_index :
      (j : ℕ) {A : Type 0} (x y : A)
      → (j == ifindex) ≡ false
      → if_equal (link_cmp j ifindex) x y ≡ y
  other_index j x y e = ground (arith, ifindex_cmp_lem j ifindex)

  new-Noted :
      IsTable t
      → obj_link_lookup ifindex t ≡ none
      → IsLladdr (bytes_of i.lladdr)
      → Noted none (obj_link_new rb (set_info i (new_link ifindex)).0 t) []
  unfolding obj_link_lookup obj_link_new obj_link_insert set_info
  new-Noted h e len =
      let l = record (set_info i (new_link ifindex)).0 {
        obj = record (new_link ifindex).obj { state = installed };
      } in
      let o = ifindex_cmp-IsOrder in
      let says = set_info-Says i (new_link ifindex) refl len in
      let order = (insert-in_order index o l tt rb t h.search e).1 in
      record {
        table = record {
          search = insert-IsSearch index o l tt rb t h.search;
          links = rw (order) (
              place-All IsLink l (in_order t)
                (record { kind = refl; lladdr = ap length says.lladdr ∙ len }) h.links);
        };
        link = l;
        found = lookup-insert index o l tt rb t h.search ifindex tt e ∙ rw (o.self ifindex tt);
        says = record {
          lladdr = says.lladdr;
          lower_ifindex = refl;
          vlan_id = refl;
          mtu = refl;
          ifname = says.ifname;
        };
        others = λ j d. lookup-insert index o l tt rb t h.search j tt e ∙ other_index j _ _ d;
        told = inl (refl, refl);
      }

  not_positive : (n : ℕ) → ltb 0 n ≡ false → n ≡ 0
  not_positive n e = ground arith

  -- The fields that a message does not have stay.
  set_info_rest :
      (l : Link)
      → ((set_info i l).0.ifindex ≡ l.ifindex)
        × ((set_info i l).0.fdb ≡ l.fdb)
        × ((set_info i l).0.obj ≡ l.obj)
  unfolding set_info
  set_info_rest l = (refl, refl, refl)

  known-Noted :
      (l : Link)
      → IsTable t
      → obj_link_lookup ifindex t ≡ some l
      → IsLladdr (bytes_of i.lladdr)
      → Noted (some l) (update_link rb rb_erase mode i l t).0 (update_link rb rb_erase mode i l t).1
  unfolding obj_link_lookup update_link obj_link_update
  known-Noted l h e len =
      let f : Link → Link = λ x. (set_info i x).0 in
      let o = ifindex_cmp-IsOrder in
      let (is_link, at) = found_link ifindex t l h e in
      let says = set_info-Says i l is_link.lladdr len in
      let unchanged = set_info-unchanged i l is_link.lladdr len in
      let keeps : (x : Link) → IsLink x → IsLink (f x) = λ x hx. record {
        kind = ap (λ c. kind_no c.kind) (set_info_rest x).2 ∙ hx.kind;
        lladdr = ap length (set_info-Says i x hx.lladdr len).lladdr ∙ len;
      } in
      let key : (x : Link) → index (f x) ≡ index x = λ x. (set_info_rest x).0 in
      let at_index : lookup index link_cmp l.ifindex t ≡ some l =
        ap (λ n. lookup index link_cmp n t) (sym at) ∙ e in
      let written : (j : ℕ)
          → lookup index link_cmp j (update index link_cmp l.ifindex f t)
            ≡ if_equal (link_cmp j l.ifindex) (some (f l)) (lookup index link_cmp j t) =
        λ j.
          lookup-update index o l.ifindex f tt key j t tt h.search
          ∙ ap (λ m. if_equal (link_cmp j l.ifindex) (Option.map f m) (lookup index link_cmp j t))
              at_index in
      let same_index : link_cmp ifindex l.ifindex ≡ Ordering.eq =
        ap (link_cmp ifindex) (sym at) ∙ o.self ifindex tt in
      record {
        table = record {
          search = update-IsSearch index o l.ifindex f tt key t h.search;
          links = update-All IsLink l.ifindex f t keeps h.links;
        };
        link = f l;
        found =
            written ifindex
            ∙ ap (λ c. if_equal c (some (f l)) (lookup index link_cmp ifindex t)) same_index;
        says = says;
        others = λ j d.
            written j
            ∙ ap (λ n. if_equal (link_cmp j n) (some (f l)) (lookup index link_cmp j t)) (sym at)
            ∙ other_index j (some (f l)) (lookup index link_cmp j t) d;
        told = inr (
          l,
          refl,
          elim (Bool-cases (ltb 0 (set_info i l).1)) [
            | inl c ↦ inr (
              λ s. absurd (omega (arith, unchanged.1 s, ltb→lt 0 (set_info i l).1 c)),
              rw (c) (ap (map obj_neigh_link_update) (set_info_rest l).1),
            )
            | inr c ↦ inl (unchanged.0 (not_positive (set_info i l).1 c), rw (c))
          ],
        );
      }

  -- A message that is no removal, with an address of six bytes or none, on a table in order: the
  -- call returns without a failed assertion, the table is in order again, the link of the index says
  -- what the message says, and every other index finds what it found. The neighbours of the link
  -- are told if there was such a link and it said something else, and only then.
  pub obj_link_netlink_update-Noted :
      (nlmsg_type : ℕ)
      → (nlmsg_type == rtm_dellink rb rb_erase mode) ≡ false
      → IsTable t
      → IsLladdr (bytes_of i.lladdr)
      → (t' : Tree Link) × (calls : List Call) × (obj_link_netlink_update rb rb_erase mode
            nlmsg_type ifindex i t
          ≡ ok (t', calls))
        × Noted (obj_link_lookup ifindex t) t' calls
  unfolding obj_link_netlink_update dispatch_link
  obj_link_netlink_update-Noted nlmsg_type d h len =
      elim (Option-cases (obj_link_lookup ifindex t)) [
        | inl e ↦
            let t' = obj_link_new rb (set_info i (new_link ifindex)).0 t in
            (t', [], rw (d, e), subst (λ o. Noted o t' []) (sym e) (new-Noted h e len))
        | inr (l, e) ↦
            let (is_link, at) = found_link ifindex t l h e in
            let kind : (kind_no l.obj.kind == kind_no ObjKind.link) ≡ true =
              (==_iff _ _).1 is_link.kind in
            let index_ok : (l.ifindex == ifindex) ≡ true = (==_iff _ _).1 (sym at) in
            let (t', calls) = update_link rb rb_erase mode i l t in
            (
              t',
              calls,
              rw (d, e, kind, index_ok),
              subst (λ o. Noted o t' calls) (sym e) (known-Noted l h e len),
            )
      ]

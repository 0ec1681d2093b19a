-- ===== src/Neighs/Table.antt =====
-- src/obj_neigh.c: the neighbours of a link as a map from addresses to what was said last.
use mathlib.Core.Path.{subst}
use flower_route.Base.{
  ltb→lt, ℕ, ◌+◌, ◌≡◌, ◌≢◌, ◌⊎◌, refl, sym, ap, ◌∙◌, true, false, Option, Option-cases, none, some,
  List, [], length, inl, inr, Bool-cases, ltb, ◌==◌, arith,
}
use mathlib.Core.List.{append-nil}
use flower_route.Ret.{ok}
use flower_route.TcRule.{TcRule}
use flower_route.AfAddr.{build_af_addr, replicate, AfAddr, af_addr_bytes}
use flower_route.Keys.{memcmp}
use flower_route.Keys.Orders.{memcmp-IsOrder}
use flower_route.Search.{Tree, RbTree, lookup, insert}
use flower_route.Search.Lookup.{lookup_key}
use flower_route.Obj.{kind_no, normal, ObjKind, installed, obj_ref}
use flower_route.Obj.Counts.{obj_ref_lem}
use flower_route.Links.{lladdr_set}
use flower_route.Links.Fields.{bytes_of, IsLladdr, lladdr_set-bytes_of, lladdr_unchanged}
use flower_route.Neighs.{
  rtm_delneigh, obj_neigh_fdb_lookup, update_of_link, obj_neigh_netlink_update, count_neigh,
  obj_weak_ref, obj_link_weak_ref, Fdb, neigh_key, obj_neigh_alloc, obj_neigh_notify_targets,
  obj_neigh_new, obj_neigh_update, update_found, put_neigh,
}
use flower_route.Neighs.Objects.{Neigh, Call}
use flower_route.Neighs.Holds.{
  IsKey, IsTable, IsLive, kind_test, bracket, Holds, af_addr_eq, put-Holds, insert-put-Holds,
}

-- What a message leaves under an address, by the neighbour that was there.
pub record Noted (lladdr : Option (List ℕ)) (addr : AfAddr) (before : Option Neigh) (s s' : Fdb)
    (calls : List Call) : Type 0 where
  pub neigh : Neigh
  pub addr_lem : neigh.addr ≡ addr
  pub says : neigh.lladdr ≡ bytes_of lladdr
  pub holds : Holds neigh s.neighs s'.neighs
  pub told :
      ((n : Neigh) × (before ≡ some n)
        × (neigh.targets ≡ n.targets)
        × (s'.link ≡ s.link)
        × (((n.lladdr ≡ bytes_of lladdr) × (calls ≡ []))
            ⊎ ((n.lladdr ≢ bytes_of lladdr) × (calls ≡ obj_neigh_notify_targets n.targets))))
      ⊎ ((before ≡ none)
          × (neigh.targets ≡ [])
          × (calls ≡ [])
          × (obj_link_weak_ref s.link ≡ ok s'.link)
          × (s'.counts.neighs ≡ s.counts.neighs + 1))

module _ (rb : RbTree Neigh) (rb_erase : List ℕ → Tree Neigh → Tree Neigh) (image : TcRule → List ℕ)
    (pin : ℕ) (addr : AfAddr) (lladdr : Option (List ℕ)) (s : Fdb) (table : IsTable s.neighs)
    (fits : IsKey (af_addr_bytes addr)) (six : IsLladdr (bytes_of lladdr)) where
  obj_neigh_update_lem :
      (n : Neigh)
      → IsLive n.obj
      → obj_neigh_update rb rb_erase image normal pin n s
        ≡ ok (
          put_neigh rb rb_erase image normal pin
              (record n { obj = record n.obj { state = installed } })
              s,
          obj_neigh_notify_targets n.targets,
        )
  unfolding obj_neigh_update
  obj_neigh_update_lem n live =
      rw (kind_test n.obj live, bracket n.obj live)
        (ap
          (λ cs. ok (
            put_neigh rb rb_erase image normal pin
                (record n { obj = record n.obj { state = installed } }) s,
            cs,
          ))
          (append-nil (obj_neigh_notify_targets n.targets)))

  obj_neigh_new_lem :
      (n : Neigh) (s1 : Fdb)
      → IsLive n.obj
      → obj_neigh_new rb rb_erase image normal pin n s1
        ≡ ok (
          put_neigh rb rb_erase image normal pin
              (record n { obj = record n.obj { state = installed } })
              (record s1 {
                neighs =
                    (insert neigh_key memcmp rb
                      (record n { obj = record (obj_ref n.obj) { state = installed } })
                      s1.neighs).0;
              }),
          [],
        )
  unfolding obj_neigh_new
  obj_neigh_new_lem n s1 live =
      let kept : (kind_no (obj_ref n.obj).kind == kind_no ObjKind.neigh) ≡ true =
        ap (λ c. kind_no c.kind == kind_no ObjKind.neigh) (obj_ref_lem n.obj live.alive live.refs)
        ∙ kind_test n.obj live in
      rw (kind_test n.obj live, kept, bracket n.obj live) refl

  known-Noted :
      (n : Neigh)
      → lookup neigh_key memcmp (af_addr_bytes addr) s.neighs ≡ some n
      → IsLive n.obj
      → IsLladdr n.lladdr
      → (s' : Fdb) × (calls : List Call) × (update_found rb rb_erase image normal pin addr lladdr
            (some n)
            s
          ≡ ok (s', calls))
        × Noted lladdr addr (some n) s s' calls
  unfolding update_found
  known-Noted n e live len =
      let at : n.addr ≡ addr =
        af_addr_eq n.addr addr
          (lookup_key neigh_key (memcmp-IsOrder 20) (af_addr_bytes addr) s.neighs n fits table e) in
      let key : neigh_key n ≡ af_addr_bytes addr = ap af_addr_bytes at in
      let there = ap (λ k. lookup neigh_key memcmp k s.neighs) key ∙ e in
      let (bytes, changes) = lladdr_set n.lladdr lladdr in
      let said = lladdr_set-bytes_of n.lladdr lladdr len six in
      let same = lladdr_unchanged n.lladdr lladdr len six in
      elim (Bool-cases (ltb 0 changes)) [
        | inl c ↦
            let n' = record n { lladdr = bytes; obj = record n.obj { state = installed } } in
            let new : n.lladdr ≢ bytes_of lladdr =
              λ q. absurd (omega (arith, same.1 q, ltb→lt 0 changes c)) in
            (
              put_neigh rb rb_erase image normal pin n' s,
              obj_neigh_notify_targets n.targets,
              rw c (obj_neigh_update_lem (record n { lladdr = bytes }) live),
              record {
                neigh = n';
                addr_lem = at;
                says = said;
                holds = put-Holds n' n s.neighs table (ap length key ∙ fits) there;
                told = inl (n, refl, refl, refl, inr (new, refl));
              },
            )
        | inr c ↦
            let n' = record n { lladdr = bytes } in
            let none_changed : changes ≡ 0 = ground arith in
            (
              put_neigh rb rb_erase image normal pin n' s,
              [],
              rw c refl,
              record {
                neigh = n';
                addr_lem = at;
                says = said;
                holds = put-Holds n' n s.neighs table (ap length key ∙ fits) there;
                told = inl (n, refl, refl, refl, inl (same.0 none_changed, refl));
              },
            )
      ]

  new-Noted :
      lookup neigh_key memcmp (af_addr_bytes addr) s.neighs ≡ none
      → s.link.kind ≡ ObjKind.link
      → (s' : Fdb) × (calls : List Call) × (update_found rb rb_erase image normal pin addr lladdr
            none s
          ≡ ok (s', calls))
        × Noted lladdr addr none s s' calls
  unfolding update_found obj_link_weak_ref
  new-Noted e link =
      let link_ok : (kind_no s.link.kind == kind_no ObjKind.link) ≡ true =
        ap (λ k. kind_no k == kind_no ObjKind.link) link in
      let n = record (obj_neigh_alloc addr) { lladdr = (lladdr_set (replicate 6 0) lladdr).0 } in
      let n' = record n { obj = record n.obj { state = installed } } in
      let s1 = record s { link = obj_weak_ref s.link; counts = count_neigh s.counts } in
      let first = record n { obj = record (obj_ref n.obj) { state = installed } } in
      let said = lladdr_set-bytes_of (replicate 6 0) lladdr refl six in
      (
        put_neigh rb rb_erase image normal pin n'
            (record s1 { neighs = (insert neigh_key memcmp rb first s.neighs).0 }),
        [],
        rw link_ok
            (obj_neigh_new_lem n s1 (record { kind = refl; alive = refl; refs = omega arith })),
        record {
          neigh = n';
          addr_lem = refl;
          says = said;
          holds = insert-put-Holds rb first n' s.neighs table fits refl e;
          told = inr (refl, refl, refl, rw link_ok refl, refl);
        },
      )

  -- In normal mode, for a message that is no removal, with an address that can be read and a link
  -- layer address of six bytes or none, over a table in order with live neighbours: the call returns
  -- without a failed assertion, the table is in order again, the neighbour of the address has the
  -- link layer address of the message, every other address finds what it found. A neighbour that was
  -- there keeps its targets, which are notified exactly if its link layer address was another one;
  -- a new one has none, takes a weak reference on the link, and is counted.
  pub obj_neigh_netlink_update-Noted :
      (nlmsg_type af : ℕ) (bytes : Option (List ℕ))
      → (nlmsg_type == rtm_delneigh) ≡ false
      → build_af_addr af bytes 0 ≡ ok addr
      → s.link.kind ≡ ObjKind.link
      → ((n : Neigh)
          → lookup neigh_key memcmp (af_addr_bytes addr) s.neighs ≡ some n
          → IsLive n.obj × IsLladdr n.lladdr)
      → (s' : Fdb) × (calls : List Call) × (obj_neigh_netlink_update rb rb_erase image normal pin
            nlmsg_type af
            (ok bytes)
            lladdr
            (some s)
          ≡ ok (some s', calls))
        × Noted lladdr addr (lookup neigh_key memcmp (af_addr_bytes addr) s.neighs) s s' calls
  unfolding obj_neigh_netlink_update update_of_link obj_neigh_fdb_lookup
  obj_neigh_netlink_update-Noted nlmsg_type af bytes d built link live =
      let link_ok : (kind_no s.link.kind == kind_no ObjKind.link) ≡ true =
        ap (λ k. kind_no k == kind_no ObjKind.link) link in
      elim (Option-cases (lookup neigh_key memcmp (af_addr_bytes addr) s.neighs)) [
        | inl e ↦
            let (s', calls, step, noted) = new-Noted e link in
            (
              s',
              calls,
              rw (built, link_ok, d, e, step) refl,
              subst (λ b. Noted lladdr addr b s s' calls) (sym e) noted,
            )
        | inr (n, e) ↦
            let (s', calls, step, noted) = known-Noted n e (live n e).0 (live n e).1 in
            (
              s',
              calls,
              rw (built, link_ok, d, e, step) refl,
              subst (λ b. Noted lladdr addr b s s' calls) (sym e) noted,
            )
      ]

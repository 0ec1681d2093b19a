-- ===== src/Targets.antt =====
-- src/obj_target.c and src/obj_route.c: the rules that targets and routes ask for, and the list of
-- the routes of a target. A route is its address in memory.
pub mod Wire
pub mod Listed
pub mod Unlink
mod Tests
use flower_route.Base.{
  ℕ, zero, suc, ◌+◌, ◌*◌, ◌^◌, Bool, true, false, ◌&&◌, Option, none, some, List, [], ◌∷◌, ◌==◌,
  if◌then◌else◌,
}
use flower_route.Base.Bytes.{load16, load32}
use flower_route.Ret.{Ret, ok, aborted, assert, ◌>>=◌, ◌>>◌}
use flower_route.AfAddr.{AfAddr}
use flower_route.TcRule.{
  TcRule, zero_rule, tc_rule_init, tc_rule_set_type_and_traits, forward, route_goto,
}
use flower_route.Sched.{only_af}
use flower_route.Rules.{Rule, ok_state, ◌is◌}

-- The six bytes.
abbrev pub is_lladdr_zero : List ℕ → Bool
is_lladdr_zero (a ∷ b ∷ c ∷ d ∷ e ∷ f ∷ _) =
    (a == 0) && ((b == 0) && ((c == 0) && ((d == 0) && ((e == 0) && (f == 0)))))
is_lladdr_zero _ = false

-- The bytes from the fifth and from the third on.
abbrev pub from_fifth : List ℕ → List ℕ
from_fifth (_ ∷ _ ∷ _ ∷ _ ∷ bs) = bs
from_fifth _ = []

abbrev pub from_third : List ℕ → List ℕ
from_third (_ ∷ _ ∷ bs) = bs
from_third _ = []

-- `tcr->lladdr` after the two calls of `memcpy`, by its three words.
abbrev pub set_lladdrs : (src dst : List ℕ) → TcRule → TcRule
set_lladdrs src dst tcr = record tcr {
  raw0 = load32 dst;
  raw1 = load16 (from_fifth dst) + load16 src * 2 ^ 16;
  raw2 = load32 (from_third src);
}

abbrev pub some_rule : Ret TcRule → Ret (Option TcRule)
some_rule m = do tcr ← m; ok (some tcr)

-- `obj_target_prepare_rule` on a zeroed rule, by the fields of the link and of the neighbour that it
-- reads; `none` is `false`. `config->flower_flags` is an argument.
unfoldable pub obj_target_prepare_rule :
    (flags vlan_id : ℕ) (link_lladdr neigh_lladdr : List ℕ) (af : ℕ) → Ret (Option TcRule)
obj_target_prepare_rule flags vlan_id link_lladdr neigh_lladdr af =
    let tcr = record (tc_rule_init flags zero_rule) { vlan_id = vlan_id; af_addr = only_af af } in
    let prepared =
      some_rule (tc_rule_set_type_and_traits (set_lladdrs link_lladdr neigh_lladdr tcr) forward) in
    if vlan_id == 0
    then ok none
    else if is_lladdr_zero link_lladdr
    then ok none
    else if is_lladdr_zero neigh_lladdr
    then ok none
    else prepared

-- `obj_route_prepare_rule` on a zeroed rule.
unfoldable pub obj_route_prepare_rule : (flags : ℕ) → AfAddr → Rule → Ret TcRule
obj_route_prepare_rule flags dst target_rule = do
  assert (target_rule.state is ok_state)
  tc_rule_set_type_and_traits
      (record (tc_rule_init flags zero_rule) { af_addr = dst; goto_target = target_rule.chain_no })
      route_goto

-- The pointers of the list: `first_route` and `last_route` of the target, and `t_next_route` of each
-- route.
pub record Routes : Type 0 where
  pub first_route : Option ℕ
  pub last_route : Option ℕ
  pub t_next_route : ℕ → Option ℕ

-- A write to one route's pointer.
abbrev pub set_next : ℕ → Option ℕ → (ℕ → Option ℕ) → ℕ → Option ℕ
set_next r p next x = if x == r then p else next x

abbrev pub link_at : Option ℕ → ℕ → Routes → Routes
link_at none r l = record l { first_route = some r; last_route = some r }
link_at (some last) r l = record l {
  t_next_route = set_next last (some r) l.t_next_route;
  last_route = some r;
}

-- The list's part of `obj_target_link_route`.
unfoldable pub obj_target_link_route : ℕ → Routes → Routes
obj_target_link_route r l = link_at l.last_route r l

-- `*prev_ptr = p`, where `prev_ptr` points into the route `prev`, or to `first_route`.
abbrev pub set_prev : Option ℕ → Option ℕ → Routes → Routes
set_prev none p l = record l { first_route = p }
set_prev (some prev) p l = record l { t_next_route = set_next prev p l.t_next_route }

abbrev pub is_route : Option ℕ → ℕ → Bool
is_route none r = false
is_route (some x) r = x == r

-- The body of the loop where the route is found.
abbrev pub take_out : ℕ → Option ℕ → Routes → Routes
take_out r prev l =
    let l' = set_prev prev (l.t_next_route r) l in
    record l' {
      last_route = if is_route l'.last_route r then prev else l'.last_route;
      t_next_route = set_next r none l'.t_next_route;
    }

-- The loop of `obj_target_unlink_route` over `rr`, on fuel; without fuel it is an error. Where the
-- route was found, `rr->t_next_route` is NULL afterwards.
unfoldable pub unlink_loop : ℕ → ℕ → Option ℕ → Option ℕ → Routes → Option Routes
unlink_loop fuel r prev none l = some l
unlink_loop zero r prev (some rr) l = none
unlink_loop (suc fuel) r prev (some rr) l =
    let found = (let l' = take_out r prev l in unlink_loop fuel r prev (l'.t_next_route rr) l') in
    let other = unlink_loop fuel r (some rr) (l.t_next_route rr) l in
    if rr == r then found else other

unfoldable pub obj_target_unlink_route : ℕ → ℕ → Routes → Option Routes
obj_target_unlink_route fuel r l = unlink_loop fuel r none l.first_route l

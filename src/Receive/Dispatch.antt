-- ===== src/Receive/Dispatch.antt =====
-- `decode_nlmsg_cb` of src/nl_decode.c: every message that the daemon receives, over the tables of
-- chains and of links. What the handlers hand to the neighbours, to the routes and to the rules is
-- the result.
use flower_route.Base.{ℕ, ◌||◌, Option, none, some, List, [], ◌∷◌, map, ◌==◌, if◌then◌else◌}
use flower_route.Ret.{Ret, ok, aborted, ◌>>=◌}
use flower_route.Netlink.{Mnl, Message}
use flower_route.Netlink.Names as TcNames
use flower_route.Search.{Tree, RbTree}
use flower_route.Obj.{ObjMode}
use flower_route.Chains.{Chain}
use flower_route.Links
use flower_route.Links.{Link, obj_link_netlink_update}
use flower_route.TcRule.{TcRule}
use flower_route.Decode.Dispatch.{decode_qdisc, decode_chain, decode_filter}
use flower_route.Receive.{
  LinkMessage, NeighMessage, RouteMessage, LinkUpdate, NeighUpdate, RouteUpdate, decode_link,
  decode_neigh, decode_route,
}
use flower_route.Receive.Names

-- A message by the header that it has after `struct nlmsghdr`; `other` has none that is read.
pub data Datagram : Type 0 where
  ifinfomsg : LinkMessage → Datagram
  ndmsg : NeighMessage → Datagram
  rtmsg : RouteMessage → Datagram
  tcmsg : Message → Datagram
  other : (nlmsg_type : ℕ) → Datagram

abbrev pub type_of : Datagram → ℕ
type_of (ifinfomsg nlh) = nlh.nlmsg_type
type_of (ndmsg nlh) = nlh.nlmsg_type
type_of (rtmsg nlh) = nlh.nlmsg_type
type_of (tcmsg nlh) = nlh.nlmsg_type
type_of (other nlmsg_type) = nlmsg_type

pub record Tables : Type 0 where
  pub chains : Tree Chain
  pub links : Tree Link

-- What is handed on.
pub data Effect : Type 0 where
  link_call : Links.Call → Effect
  neigh_told : NeighUpdate → Effect
  route_asked : RouteUpdate → Effect
  got_qdisc : Effect
  rule_found : (nlmsg_type chain_no prio : ℕ) → TcRule → Effect

pub data Handler : Type 0 where
  link route neigh qdisc chain filter no_handler : Handler

-- The `switch`.
unfoldable pub handler : ℕ → Handler
handler t =
    if (t == Names.rtm_newlink) || (t == Names.rtm_dellink)
    then link
    else if (t == Names.rtm_newroute) || (t == Names.rtm_delroute)
    then route
    else if (t == Names.rtm_newneigh) || ((t == Names.rtm_delneigh) || (t == Names.rtm_getneigh))
    then neigh
    else if (t == Names.rtm_newqdisc) || (t == Names.rtm_delqdisc)
    then qdisc
    else if (t == Names.rtm_newchain) || (t == Names.rtm_delchain)
    then chain
    else if (t == TcNames.rtm_newtfilter) || (t == TcNames.rtm_deltfilter)
    then filter
    else no_handler

abbrev pub route_event : Option RouteUpdate → List Effect
route_event none = []
route_event (some u) = route_asked u ∷ []

abbrev pub filter_event : Option (ℕ × ℕ × ℕ × TcRule) → List Effect
filter_event none = []
filter_event (some (t, chain_no, prio, tcr)) = rule_found t chain_no prio tcr ∷ []

module _ (m : Mnl) (ifidx table_id : ℕ) (chain_rb : RbTree Chain) (link_rb : RbTree Link)
    (link_erase : ℕ → Tree Link → Tree Link) (mode : ObjMode) where
  abbrev pub update_links : Option LinkUpdate → Tables → Ret (Tables × List Effect)
  update_links none s = ok (s, [])
  update_links (some u) s = do
    (links, calls) ←
        obj_link_netlink_update link_rb link_erase mode u.nlmsg_type u.ifindex u.info s.links
    ok (record s { links = links }, map link_call calls)

  -- A handler reads the header of its own kind of message.
  unfoldable pub handle : Handler → Datagram → Tables → Ret (Tables × List Effect)
  handle link (ifinfomsg nlh) s = do u ← decode_link m ifidx nlh; update_links u s
  handle route (rtmsg nlh) s = do u ← decode_route m table_id nlh; ok (s, route_event u)
  handle neigh (ndmsg nlh) s = do u ← decode_neigh m nlh; ok (s, neigh_told u ∷ [])
  handle qdisc (tcmsg nlh) s = do
    got ← decode_qdisc m ifidx nlh
    ok (s, if got then got_qdisc ∷ [] else [])
  handle chain (tcmsg nlh) s = do
    chains ← decode_chain m ifidx chain_rb nlh s.chains
    ok (record s { chains = chains }, [])
  handle filter (tcmsg nlh) s = do found ← decode_filter m nlh; ok (s, filter_event found)
  handle no_handler nlh s = ok (s, [])
  handle _ nlh s = aborted

  unfoldable pub decode_nlmsg_cb : Datagram → Tables → Ret (Tables × List Effect)
  unfolding handler handle
  decode_nlmsg_cb nlh s = handle (handler (type_of nlh)) nlh s

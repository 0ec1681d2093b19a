-- ===== src/Decode/Dispatch.antt =====
-- src/tc_decode.c: what the daemon does with the kernel's messages of queueing disciplines, chains
-- and filters, and the dump requests of src/nl_filter.c that ask for them. `config->ifidx` is the
-- argument `ifidx`.
use text.Mathlib.Text.{◌==◌ as str_eq}
use Prim.Native.String.{String}
use flower_route.Base.{ℕ, ◌+◌, Bool, false, ◌&&◌, Option, none, some, ◌==◌, if◌then◌else◌}
use flower_route.Base.Bytes.{bytes32}
use flower_route.Ret.{Ret, ok, error, aborted, ◌>>=◌}
use flower_route.Netlink.{Mnl, Attrs, end, put, octets, Message}
use flower_route.Netlink.Table.{parse_table}
use flower_route.Netlink.Names
use flower_route.Encode.{ingress_parent}
use flower_route.Search.{Tree, RbTree}
use flower_route.Chains.{Chain, filter_got_chain}
use flower_route.TcRule.{TcRule}
use flower_route.Decode.{str_eq, DecodedRule, try_decode_filter, tc_attr_types}
use flower_route.Decode.Reads.{u32_or, str_or_null}

abbrev rtm_getqdisc : ℕ
rtm_getqdisc = 38

abbrev rtm_gettfilter : ℕ
rtm_gettfilter = 46

abbrev rtm_getchain : ℕ
rtm_getchain = 102

abbrev nlm_f_dump : ℕ
nlm_f_dump = 0x300

-- `TC_H_MAJ(TC_H_INGRESS)`.
abbrev pub ingress_major : ℕ
ingress_major = 0xffff0000

-- A request of everything of one kind.
abbrev dump_request : (ifidx nlmsg_type parent : ℕ) → Attrs → Message
dump_request ifidx nlmsg_type parent attrs = record {
  nlmsg_type = nlmsg_type;
  nlmsg_flags = Names.nlm_f_request + nlm_f_dump;
  tcm_family = 0;
  tcm_ifindex = ifidx;
  tcm_handle = 0;
  tcm_parent = parent;
  tcm_info = 0;
  attrs = attrs;
}

abbrev pub filter_dump : (ifidx : ℕ) → Message
filter_dump ifidx = dump_request ifidx rtm_getqdisc 0 end

abbrev pub filter_dump_chains : (ifidx : ℕ) → Message
filter_dump_chains ifidx = dump_request ifidx rtm_getchain ingress_parent end

abbrev pub filter_dump_chain : (ifidx chain_no : ℕ) → Message
filter_dump_chain ifidx chain_no =
    dump_request ifidx rtm_gettfilter ingress_parent
      (put Names.tca_chain (octets (bytes32 chain_no)))

abbrev pub is_ingress : Option String → Bool
is_ingress none = false
is_ingress (some kind) = str_eq kind "ingress"

-- A failed assertion where the table could not take the chain.
abbrev pub got_chain : Option (Tree Chain) → Ret (Tree Chain)
got_chain none = aborted
got_chain (some t) = ok t

module _ (m : Mnl) (ifidx : ℕ) where
  -- Whether `filter_got_qdisc` is called.
  unfoldable pub decode_qdisc : Message → Ret Bool
  unfolding parse_table
  decode_qdisc nlh = do
    tb ← parse_table m Names.tca_max tc_attr_types nlh.attrs
    if nlh.tcm_ifindex == ifidx
        then (do
          chain_no ← u32_or (tb Names.tca_chain) 0
          kind ← str_or_null (tb Names.tca_kind)
          ok (is_ingress kind))
        else ok false

  -- The table of chains afterwards.
  unfoldable pub decode_chain : RbTree Chain → Message → Tree Chain → Ret (Tree Chain)
  unfolding parse_table
  decode_chain rb nlh chains = do
    tb ← parse_table m Names.tca_max tc_attr_types nlh.attrs
    chain_no ← u32_or (tb Names.tca_chain) 0
    if (nlh.tcm_ifindex == ifidx) && (nlh.tcm_parent == ingress_major)
        then got_chain (filter_got_chain rb chain_no chains)
        else ok chains

module _ (m : Mnl) where
  -- What `decode_filter` hands to `obj_rule_netlink_found`: the type of the message, the place and
  -- the rule.
  unfoldable pub decode_filter : Message → Ret (Option (ℕ × ℕ × ℕ × TcRule))
  decode_filter nlh = do
    tdr ← try_decode_filter m nlh
    ok (if tdr.is_done then some (nlh.nlmsg_type, tdr.chain_no, tdr.prio, tdr.tcr) else none)

  -- NULL where the message cannot be read.
  abbrev pub unless_error : Ret DecodedRule → Ret (Option DecodedRule)
  unless_error (ok tdr) = ok (some tdr)
  unless_error error = ok none
  unless_error aborted = aborted

  unfoldable pub decode_filter2 : Message → Ret (Option DecodedRule)
  decode_filter2 nlh = unless_error (try_decode_filter m nlh)

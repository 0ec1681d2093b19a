-- ===== src/Codec/Reported.antt =====
-- A chain that the kernel reports, from the message (`decode_chain` of src/tc_decode.c) to the table
-- of src/nl_filter.c.
use flower_route.Base.{ℕ, ◌≡◌, refl, ◌∙◌, ap, arith}
use flower_route.Base.Bytes.{bytes32, load32-bytes32}
use flower_route.Ret.{ok}
use flower_route.Keys.Orders.{Below31}
use flower_route.Search.{Tree, RbTree}
use flower_route.Netlink.{octets, put, Message, Mnl}
use flower_route.Netlink.Names
use flower_route.Netlink.Table.{parse_table-fill}
use flower_route.Chains.{Chain, present, filter_got_chain}
use flower_route.Chains.Table.{IsTable, Stored, filter_got_chain-Stored}
use flower_route.Decode.{tc_attr_types}
use flower_route.Decode.Dispatch.{ingress_major, got_chain, decode_chain}

-- The kernel's message of a chain of the ingress side of an interface.
abbrev pub chain_message : (nlmsg_type nlmsg_flags ifidx chain_no : ℕ) → Message
chain_message nlmsg_type nlmsg_flags ifidx chain_no = record {
  nlmsg_type = nlmsg_type;
  nlmsg_flags = nlmsg_flags;
  tcm_family = 0;
  tcm_ifindex = ifidx;
  tcm_handle = 0;
  tcm_parent = ingress_major;
  tcm_info = 0;
  attrs = put Names.tca_chain (octets (bytes32 chain_no));
}

module _ (m : Mnl) (nlmsg_type nlmsg_flags ifidx chain_no : ℕ) (rb : RbTree Chain) where
  -- A message of the interface reaches the table.
  decode_chain-got_chain :
      (t : Tree Chain)
      → Below31 chain_no
      → decode_chain m ifidx rb (chain_message nlmsg_type nlmsg_flags ifidx chain_no) t
        ≡ got_chain (filter_got_chain rb chain_no t)
  unfolding decode_chain
  decode_chain-got_chain t h =
      rw
        (
          parse_table-fill m Names.tca_max tc_attr_types
              (put Names.tca_chain (octets (bytes32 chain_no)))
              ((omega arith, refl, m.validate_u32 _ refl), tt),
          load32-bytes32 chain_no (omega arith),
        )
        (ground arith)

  -- For a table in order and a chain number below 2 ^ 31: the message of a chain of the interface
  -- with the ingress parent is handled without an error; afterwards the chain is in the table as
  -- present, the table is in order, and every other chain is looked up as before.
  pub decode_chain-Stored :
      (t : Tree Chain)
      → IsTable t
      → Below31 chain_no
      → (t' : Tree Chain) × (decode_chain m ifidx rb
            (chain_message nlmsg_type nlmsg_flags ifidx chain_no)
            t
          ≡ ok t')
        × Stored chain_no present t t'
  decode_chain-Stored t s h =
      let (t', got, stored) = filter_got_chain-Stored chain_no h rb t s in
      (t', decode_chain-got_chain t h ∙ ap got_chain got, stored)

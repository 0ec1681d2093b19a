-- ===== src/Lib.antt =====
-- A model of flower-route, a daemon that keeps the flower filters (tc rules) of a network interface
-- in step with the routes of the kernel, and theorems about it. Paths are from the repository's
-- root. The daemon reads links, neighbours and routes over netlink (src/nl_decode.c), derives the
-- rules that it wants (src/obj_target.c, src/obj_route.c), places each in a chain at a priority
-- (src/sched_basic.c), sends it (src/tc_action.c, src/tc_encode.c) and reads back what the kernel
-- has (src/tc_decode.c), which updates the state of the rule object (src/obj_rule.c).
--
-- Base       tests, lists, integers, bits and bytes that the others share
-- Ret        results: a value, an error code, or a failed assertion (`AN`, `AZ`)
-- AfAddr     `struct af_addr`, `build_af_addr` (src/common.c, src/common.h)
-- Keys       the comparison functions of the tables, and on which keys they are orders
-- Search     the lookup and insertion loops that src/obj_link.c, src/obj_neigh.c, src/obj_route.c,
--            src/obj_rule.c and src/nl_filter.c write out over red-black trees
-- Chains     the table of chains and its allocator (src/nl_filter.c)
-- TcRule     `struct tc_rule` and the detection of its type (src/tc_rule.c)
-- Netlink    messages as trees of attributes; the attribute tables (src/nl_decode_common.c)
-- Encode     src/tc_encode.c, one function per function of the source
-- Decode     `try_decode_filter` of src/tc_decode.c and all that it calls; Decode/Dispatch has what
--            is done with the kernel's messages, and the dump requests of src/nl_filter.c
-- Codec      the decoder after the encoder, and a reported chain from its message to the table
-- Obj        the reference counts of src/obj.h and src/obj.c
-- Rules      the life of a rule object (src/obj_rule.c), one function per function of the source
-- Places     the positional tree and the search for a priority (src/obj_rule.c)
-- Sched      the rules at the start, those for the prefix lists, and the placement (src/sched_basic.c)
-- Receive    the decoders of links, neighbours and routes and the dispatcher of all messages
--            (src/nl_decode.c); Receive/Dispatch is the dispatcher over the tables
-- Neighs     the neighbours of a link (src/obj_neigh.c), and how targets and routes are reaped with
--            them (src/obj_target.c, src/obj_route.c)
-- Queue      the queue of requests to the kernel (src/nl_queue.c)
-- Onload     the configured lists of prefixes and their files (src/onload.c, src/config.h)
-- Links      the table of links and its messages (src/obj_link.c)
-- Targets    the rules of targets and routes, and the list of a target's routes (src/obj_target.c,
--            src/obj_route.c)
-- Installs   which rules targets and routes take and give up, and the references that they hold on
--            them (src/obj_target.c, src/obj_route.c)
-- Scan       the state machine that dumps the kernel's tables (src/scan.c)
--
-- A static variable of the source is an argument and a result of the functions that use it; a call
-- into another module that a function of src/obj_rule.c makes is an entry of the list that it
-- returns. A 32-bit number wraps (`% 2 ^ 32`), a 16-bit one too. The loops are over lists and trees;
-- on fuel are the calls of src/nl_queue.c into each other, through the callbacks, where three steps
-- are enough when each callback that executes sends a request; the loop of `advance_scan`, where
-- four iterations are enough; and the do-while loop of `onload_fread_prefix`, where one more than
-- the characters left is enough.
--
-- Parameters: `Netlink.Mnl` is libmnl, with what its documentation promises of parsing and
-- validation; `Search.RbTree` is src/rbtree.c, a copy of the Linux kernel's library, which keeps the
-- order of nodes and walks them in order; the memory image of a `struct tc_rule` is laid out by the
-- compiler; `inet_pton` is an argument, or the bytes that it reads.
--
-- A request of a rule runs as a step of its own, as it does when the queue is busy. A theorem about
-- a table assumes that chain numbers are below 2 ^ 31, where the comparison is an order, and one
-- about the allocator of chains that they are below 2 ^ 28, which the kernel's goto action allows.
--
-- The tables of links and of neighbours take `rb_erase` as an argument too; where a theorem needs it,
-- its law is a hypothesis, `Search.Erase.Erases`. The list of a target's routes is its
-- pointers, over routes that are addresses in memory; its loop is on fuel, and one more than the
-- routes in front of the one that it looks for is enough.
--
-- What a target or a route does with rules is a list of calls into src/obj_rule.c, in order, over
-- the memory of the rules at the time of the call; the answer of `obj_rule_prime_request` is an
-- argument.
--
-- Not modelled: the tree of routes with the lookup, the insertion and the removal
-- (obj_route_netlink_update, obj_route_delete), obj_target_notify_routes, and what is input and
-- output only (sockets, options, debug output). Of src/obj_rule.c, the two trees and the rules
-- together as one state are left out: a function is modelled on the object that it works on, and the
-- positional tree where rules are placed. The table of chains is not cleared at exit
-- (`filter_clear_chains` of src/nl_filter.c).
pub mod Base
pub mod Search
pub mod Keys
pub mod Chains
pub mod Ret
pub mod AfAddr
pub mod TcRule
pub mod Netlink
pub mod Encode
pub mod Decode
pub mod Codec
pub mod Obj
pub mod Onload
pub mod Scan
pub mod Rules
pub mod Places
pub mod Sched
pub mod Queue
pub mod Receive
pub mod Links
pub mod Neighs
pub mod Installs
pub mod Targets

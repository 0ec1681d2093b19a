-- ===== src/Netlink.antt =====
-- Netlink messages as libmnl builds and walks them. An attribute is a type number and a payload;
-- a nested attribute (`mnl_attr_nest_start` .. `mnl_attr_nest_end`) holds attributes. The structures
-- of the kernel's headers are payloads of their own, by the fields that the program uses.
-- libmnl itself is the parameter `Mnl`.
pub mod Names
pub mod Table
use Prim.Native.String.{String}
use flower_route.Base.{ℕ, ◌≤◌, ◌≡◌, Bool, true, false, List, [], ◌∷◌, length}
use flower_route.Ret.{Ret, ok, error, aborted, ◌>>=◌}

-- `struct tc_pedit_key`.
pub record PeditKey : Type 0 where
  pub mask : ℕ
  pub val : ℕ
  pub off : ℕ

-- `octets` is what `mnl_attr_put_u8/u16/u32` and a plain `mnl_attr_put` store.
mutual
  pub data Payload : Type 0 where
    octets : List ℕ → Payload
    strz : String → Payload
    nested : Attrs → Payload
    gact_parms : (action : ℕ) → Payload
    vlan_parms : (v_action action : ℕ) → Payload
    pedit_parms : (action : ℕ) → List PeditKey → Payload
    mirred_parms : (eaction action ifindex : ℕ) → Payload
    csum_parms : (update_flags action : ℕ) → Payload
    nexthops : Nexthops → Payload

  -- `struct rtnexthop` in a row, as far as `RTNH_OK` and `RTNH_NEXT` go.
  pub data Nexthops : Type 0 where
    no_more : Nexthops
    nexthop : (rtnh_ifindex : ℕ) → Attrs → Nexthops → Nexthops

  pub data Attrs : Type 0 where
    end : Attrs
    attr : ℕ → Payload → Attrs → Attrs

-- One `mnl_attr_put*` call, and calls in a row.
abbrev pub put : ℕ → Payload → Attrs
put type payload = attr type payload end

infixr 60 ◌&◌
abbrev pub ◌&◌ : Attrs → Attrs → Attrs
end & bs = bs
attr type payload list & bs = attr type payload (list & bs)

-- `enum mnl_attr_data_type`, as far as the program's maps use it.
pub data DataType : Type 0 where
  unspec u8 u16 u32 nul_string nested_type binary : DataType

-- A callback, over what it fills: `ok` is `MNL_CB_OK`, `error` is `MNL_CB_ERROR`.
abbrev pub Callback : Type 0 → Type 0
Callback S = ℕ → Payload → S → Ret S

-- The callback on each attribute in turn, until one call does not end well.
abbrev pub each : {S : Type 0} → Callback S → Attrs → S → Ret S
each cb end s = ok s
each cb (attr type payload list) s = cb type payload s >>= each cb list

-- What the program uses of libmnl to read, and what it relies on.
pub record Mnl : Type 1 where
  -- `mnl_attr_parse`, `mnl_attr_parse_nested`, `mnl_attr_for_each_nested`
  pub parse : {S : Type 0} → Callback S → Attrs → S → Ret S
  -- `mnl_attr_type_valid(attr, max) >= 0`
  pub type_valid : ℕ → ℕ → Bool
  -- `mnl_attr_validate(attr, type) >= 0`
  pub validate : Payload → DataType → Bool
  pub parse_each :
      {S : Type 0} (cb : Callback S) (list : Attrs) (s : S) → parse cb list s ≡ each cb list s
  pub type_valid_le : (type max : ℕ) → type ≤ max → type_valid type max ≡ true
  pub validate_u8 : (bs : List ℕ) → length bs ≡ 1 → validate (octets bs) u8 ≡ true
  pub validate_u16 : (bs : List ℕ) → length bs ≡ 2 → validate (octets bs) u16 ≡ true
  pub validate_u32 : (bs : List ℕ) → length bs ≡ 4 → validate (octets bs) u32 ≡ true
  pub validate_text : (s : String) → validate (strz s) nul_string ≡ true
  pub validate_nested : (list : Attrs) → validate (nested list) nested_type ≡ true
  pub validate_binary : (p : Payload) → validate p binary ≡ true

-- `struct nlmsghdr` and `struct tcmsg`, the fields that the program uses, and the attributes.
pub record Message : Type 0 where
  pub nlmsg_type : ℕ
  pub nlmsg_flags : ℕ
  pub tcm_family : ℕ
  pub tcm_ifindex : ℕ
  pub tcm_handle : ℕ
  pub tcm_parent : ℕ
  pub tcm_info : ℕ
  pub attrs : Attrs

-- ===== src/Infoblox/Wapi.antt =====
-- What pkg/infoblox calls of the Infoblox library and of `encoding/json`, over a world `S`: the
-- operations are parameters, so whatever is proved holds for every server behind them.
use cluster_api_ipam_provide.Common.{String, Bool, Option, List, Call, Slice}

-- `ibclient.HostRecordIpv4Addr` and `ibclient.HostRecordIpv6Addr`: the fields that the code uses.
pub record HostRecordAddr : Type 0 where
  pub address : Option String
  pub host : String

-- `ibclient.HostRecord`: the fields that the code uses. Pointers are options.
pub record HostRecord : Type 0 where
  pub ref : String
  pub name : Option String
  pub network_view : String
  pub enable_dns : Option Bool
  pub view : Option String
  pub zone : String
  pub ipv4_addrs : Slice HostRecordAddr
  pub ipv6_addrs : Slice HostRecordAddr

abbrev pub QueryParams : Type 0
QueryParams = List (String × String)

-- The fields `text` and `code` of the JSON body of an error.
pub record WapiErrorContent : Type 0 where
  pub text : String
  pub code : String

pub record Wapi (S : Type 0) : Type 0 where
  -- `NewEmptyHostRecord`, `NewHostRecordIpv4Addr`, `NewHostRecordIpv6Addr`
  pub new_empty_host_record : HostRecord
  pub new_host_record_ipv4_addr : String → String → Bool → String → HostRecordAddr
  pub new_host_record_ipv6_addr : String → String → Bool → String → HostRecordAddr
  -- `GetObject` with an empty reference: the records that a query finds
  pub find_host_records : QueryParams → Call S (List HostRecord)
  -- `GetObject` by reference, decoded into the record that is given
  pub get_host_record : String → QueryParams → HostRecord → Call S HostRecord
  -- `CreateObject`, `UpdateObject` and `DeleteObject` return a reference.
  pub create_object : HostRecord → Call S String
  pub update_object : HostRecord → String → Call S String
  pub delete_object : String → Call S String
  -- the object manager: `GetNetworkView`, `GetDNSView`, and `GetNetwork` with no attributes
  pub get_network_view : String → Call S (Unit {0})
  pub get_dns_view : String → Call S (Unit {0})
  pub get_network : String → String → Bool → Call S (Unit {0})
  -- `json.Unmarshal` into the three fields of an error
  pub unmarshal_error : String → Option WapiErrorContent

-- ===== src/Infoblox/Client.antt =====
-- pkg/infoblox/client.go: the interface `Client` and the client over the Infoblox library.
pub mod Laws
use cluster_api_ipam_provide.Common.{
  String, Bool, true, false, if◌then◌else◌, Call, Action, call, pure, throw, try_catch,
}
use cluster_api_ipam_provide.Netip.{Addr, is6, Prefix}
use cluster_api_ipam_provide.Netip.Print.{prefix_text}
use cluster_api_ipam_provide.Infoblox.Config.{HostConfig, Config, Connection, connection_of}
use cluster_api_ipam_provide.Infoblox.Wapi.{Wapi}
use cluster_api_ipam_provide.Infoblox.Errors.{is_not_found}
use cluster_api_ipam_provide.Infoblox.Addresses.{get_or_allocate_address, release_address}

-- `Client`; the loggers are left out.
pub record Client (S : Type 0) : Type 0 where
  pub get_or_allocate_address : String → String → Prefix → String → String → Action S Addr
  pub release_address : String → String → Prefix → String → Action S (Unit {0})
  pub check_network_view_exists : String → Action S Bool
  pub check_dns_view_exists : String → Action S Bool
  pub check_network_exists : String → Prefix → Action S Bool
  pub get_host_config : HostConfig

module _ {S : Type 0} where
  -- The common body of the three checks: an error whose text says "not found" means `false`.
  unfoldable pub exists_unless_not_found : Call S (Unit {0}) → Action S Bool
  exists_unless_not_found lookup =
      try_catch (call lookup) (λ _. pure true) (λ e. if is_not_found e then pure false else throw e)

module _ {S : Type 0} (wapi : Wapi S) where
  -- `CheckNetworkViewExists`
  unfoldable pub check_network_view_exists : String → Action S Bool
  unfolding exists_unless_not_found
  check_network_view_exists view = exists_unless_not_found (wapi.get_network_view view)

  -- `CheckDNSViewExists`
  unfoldable pub check_dns_view_exists : String → Action S Bool
  unfolding exists_unless_not_found
  check_dns_view_exists view = exists_unless_not_found (wapi.get_dns_view view)

  -- `CheckNetworkExists`
  unfoldable pub check_network_exists : String → Prefix → Action S Bool
  unfolding exists_unless_not_found
  check_network_exists view subnet =
      exists_unless_not_found (wapi.get_network view (prefix_text subnet) (is6 subnet.addr))

  abbrev pub client_over : HostConfig → Client S
  client_over hc = record {
    get_or_allocate_address = get_or_allocate_address wapi;
    release_address = release_address wapi;
    check_network_view_exists = check_network_view_exists;
    check_dns_view_exists = check_dns_view_exists;
    check_network_exists = check_network_exists;
    get_host_config = hc;
  }

-- `NewClient`; `connect` is the library's connector and object manager for a connection.
unfoldable pub new_client :
    {S : Type 0} → (Connection → Call S (Wapi S)) → Config → Action S (Client S)
unfolding connection_of
new_client connect config =
    try_catch (call (connect (connection_of config)))
      (λ wapi. pure (client_over wapi config.host_config)) throw

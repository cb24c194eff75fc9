-- ===== src/Infoblox/Addresses/Sent.antt =====
-- The host records that the code sends to the server, written out field by field.
use cluster_api_ipam_provide.Common.{
  ◌≡◌, refl, ap, ◌∙◌, String, ◌<>◌, true, false, some, none, [], ◌∷◌, ◌++◌, map, elements, arith,
  ◌==◌, string_eq, if◌then◌else◌,
}
use cluster_api_ipam_provide.Netip.{Prefix, is4}
use cluster_api_ipam_provide.Netip.Print.{prefix_text}
use cluster_api_ipam_provide.Infoblox.Wapi.{HostRecordAddr, HostRecord, Wapi}
use cluster_api_ipam_provide.Infoblox.Records.{
  new_host_record, prepare_host_record_for_update, next_available_ib_func,
}
use cluster_api_ipam_provide.Infoblox.Addresses.{with_request}
use cluster_api_ipam_provide.Infoblox.Addresses.Release.{with_entries}
use cluster_api_ipam_provide.Infoblox.Addresses.FirstEntry.{of_family}

-- What the server takes as the request for the next free address of a subnet in a view.
abbrev pub request_text : Prefix → String → String
request_text subnet network_view =
    "func:nextavailableip:" <> (prefix_text subnet <> ("," <> network_view))

-- The record for an update: it names no zone, no network view and no host of an entry, and no list
-- is nil.
abbrev pub for_update : HostRecord → HostRecord
for_update hr = record hr {
  zone = "";
  network_view = "";
  ipv4_addrs =
      some (map {A = HostRecordAddr} (λ ip. record ip { host = "" }) (elements hr.ipv4_addrs));
  ipv6_addrs =
      some (map {A = HostRecordAddr} (λ ip. record ip { host = "" }) (elements hr.ipv6_addrs));
}

pub prepare_host_record_for_update-for_update :
    (hr : HostRecord) → prepare_host_record_for_update hr ≡ for_update hr
unfolding prepare_host_record_for_update
prepare_host_record_for_update-for_update hr = refl

module _ {S : Type 0} (wapi : Wapi S) where
  -- An entry with that request for its address.
  abbrev pub request_entry : Prefix → String → HostRecordAddr
  request_entry subnet network_view =
      if is4 subnet.addr
      then wapi.new_host_record_ipv4_addr (request_text subnet network_view) "" false ""
      else wapi.new_host_record_ipv6_addr (request_text subnet network_view) "" false ""

  -- The record with all its entries and one more, behind those of the subnet's family.
  abbrev pub asking : HostRecord → Prefix → String → HostRecord
  asking hr subnet network_view =
      with_entries hr subnet (of_family subnet hr ++ request_entry subnet network_view ∷ [])

  -- The record of a host that the server does not know: it names the host and the view, and is for
  -- DNS, in the DNS view if there is one, exactly if there is a zone.
  abbrev pub blank_for : String → String → String → String → HostRecord
  blank_for network_view dns_view dns_zone hostname =
      let zoneless = dns_zone == "" in
      record wapi.new_empty_host_record {
        name = some hostname;
        network_view = network_view;
        enable_dns = if zoneless then some false else some true;
        view =
            if zoneless
            then wapi.new_empty_host_record.view
            else if dns_view == ""
            then none
            else some dns_view;
      }

  with_request-asking :
      (hr : HostRecord) (subnet : Prefix) (network_view : String)
      → with_request wapi hr subnet network_view ≡ asking hr subnet network_view
  unfolding with_request next_available_ib_func
  with_request-asking hr subnet network_view = ground arith

  new_host_record-blank_for :
      (network_view dns_view dns_zone hostname : String)
      → new_host_record wapi network_view dns_view dns_zone hostname
        ≡ blank_for network_view dns_view dns_zone hostname
  unfolding new_host_record
  new_host_record-blank_for network_view dns_view dns_zone hostname = ground arith

  -- What is written for a host that the server does not know, and for one that it knows.
  pub sent_new :
      (network_view dns_view dns_zone hostname : String) (subnet : Prefix)
      → with_request wapi
          (new_host_record wapi network_view dns_view dns_zone hostname)
          subnet
          network_view
        ≡ asking (blank_for network_view dns_view dns_zone hostname) subnet network_view
  sent_new network_view dns_view dns_zone hostname subnet =
      with_request-asking (new_host_record wapi network_view dns_view dns_zone hostname) subnet
        network_view
      ∙ ap (λ hr. asking hr subnet network_view)
          (new_host_record-blank_for network_view dns_view dns_zone hostname)

  pub sent_known :
      (hr : HostRecord) (subnet : Prefix) (network_view : String)
      → prepare_host_record_for_update (with_request wapi hr subnet network_view)
        ≡ for_update (asking hr subnet network_view)
  sent_known hr subnet network_view =
      prepare_host_record_for_update-for_update (with_request wapi hr subnet network_view)
      ∙ ap for_update (with_request-asking hr subnet network_view)

-- ===== src/Lib.antt =====
-- cluster-api-ipam-provider-infoblox: an IPAM provider of Cluster API that gives the addresses of an
-- Infoblox server to claims. Three reconcilers run against the cluster and against Infoblox. The one
-- of instances checks a server's configuration. The one of pools checks that Infoblox has what a pool
-- names, and keeps a finalizer on it. The one of claims belongs to Cluster API; it calls a handler to
-- fetch the pool of a claim, to ensure its address, and to release it. The handler and the reconcilers
-- reach Infoblox through the interface `Client`, which is implemented over host records. A webhook
-- admits pools to the cluster and refuses deletions of pools that are in use.
--
-- Files and what they model (paths from the root of the repository):
--   Common: numbers, texts, lists, and the ways in which a Go call ends
--   Netip: the types of Go's net/netip with Contains; Netip/Parse and Netip/Print: ParseAddr,
--     ParsePrefix and String; Netip/Cidr: ParseCIDR of Go's net. Netip/RoundTrip and Netip/Ipv6
--     relate the two for either family (Netip/Hex, Netip/Groups, Netip/Compressed and Netip/Colons
--     for the parts of a text)
--   Infoblox/Config: pkg/infoblox/client.go, configuration and credentials (AuthConfigFromSecretData,
--     the connection of NewClient)
--   Infoblox/Wapi: what pkg/infoblox calls of the Infoblox library
--   Infoblox/Errors: pkg/infoblox/client.go, isNotFound and tryParseWapiError
--   Infoblox/Records: pkg/infoblox/addresses.go, host records (getOrNewHostRecord,
--     createOrUpdateHostRecord, getAllocatedHostRecordAddrInSubnet, prepareHostRecordForUpdate)
--   Infoblox/Addresses: pkg/infoblox/addresses.go, GetOrAllocateAddress and ReleaseAddress
--   Infoblox/Leases: which addresses each host holds, as searches show them, and what an allocation and
--     a release are in that view; a server of which this can be said keeps book (Leases/Book). Runs of
--     calls in any order, each with or without an error, stand in Leases/Run, over a server that keeps
--     book, changes nothing when a write fails, and grants an address that no host holds for the text
--     that nextAvailableIBFunc makes (Leases/NextAvailable). A call is one step of a run: what another
--     client of the server does between its search and its write is not modelled
--   Infoblox/Client: pkg/infoblox/client.go, the interface, the three checks and NewClient
--   Api: api/v1alpha1, the types, the reasons of conditions and the group
--   Version: version/version.go
--   Kube: what the code calls of Kubernetes, controller-runtime and Cluster API
--   Pools: internal/index/index.go, internal/poolutil/pool.go, pkg/predicates/references.go
--   Hostname: internal/hostname/resolver.go, both resolvers
--   Controllers/Util: internal/controllers/util.go and determineDNSView
--   Controllers/Pool: internal/controllers/infobloxippool.go
--   Controllers/Instance: internal/controllers/infobloxinstance.go
--   Controllers/Patched: the deferred patch of both reconcilers
--   Controllers/Handler, Controllers/Claim: internal/controllers/ipaddressclaim.go
--     (Controllers/Claim/Served: handling many claims, as a run of calls to the server)
--   Webhooks: internal/webhooks/infobloxippool.go, Default, validate and the three entry points for it
--   Setup: main.go, SetupIndexes of internal/index/index.go, and the functions SetupWithManager
--   Tests: runs on concrete input
-- A file beside one of these, in the folder of its name, holds the theorems about it.
--
-- State. A call of foreign code is a function from the state of the world to a result and a new state;
-- the world `S` is a parameter, and so is each foreign call, as a field of the records `Wapi`,
-- `Kube` and `Runtime`. Modelled code ends in one of three ways, each with the state at its end: it returns, it fails
-- with an error value, or it panics (a nil dereference). The reconcilers and the claim handler also
-- change an object behind a pointer: they run over the world and that object (`InfobloxIpPool`,
-- `InfobloxInstance`, or `Handler` with the claim, the pool, nil before it is fetched, and the client).
-- A deferred patch is a step behind the outcome, also behind a panic.
--
-- Errors are told apart as far as the code does: by type, by apierrors.IsNotFound, and by their text.
--
-- Go's maps are association lists whose first entry counts; slices are lists, and optional where the
-- code tells nil apart. Texts are sequences of code points. The verb %q adds quotes and escapes
-- nothing. Logging is left out, and so is the text of an error of netip.ParsePrefix.
--
-- Bounds. The loops over subnets, owners and entries are recursions on lists. `find` of the hostname
-- resolver is a recursion on the levels that are left, MaxDepth less the current depth, and at none it
-- fetches nothing, as the code does. IPv6 parsing is a recursion on the eight groups that fit; an
-- address is printed with at most twenty digits a number, more than 128 bits or one octet ask for.
--
-- What slices.SortFunc does with a comparison that is no ordering is not specified, so the sorting is a
-- parameter; the theorems that need it assume that it makes no owners up, or that it loses none.
--
-- Not modelled: generated code, and the mocks of the tests. The outer
-- loop over claims belongs to Cluster API and is not part of the repository.
pub mod Common
pub mod Netip
pub mod Infoblox
pub mod Api
pub mod Kube
pub mod Pools
pub mod Hostname
pub mod Controllers
pub mod Webhooks
pub mod Setup
pub mod Tests
pub mod Version

-- ===== src/Infoblox/Errors.antt =====
-- pkg/infoblox/client.go: how errors of the Infoblox library are read.
use cluster_api_ipam_provide.Common.{
  String, ◌<>◌, Bool, Option, none, some, Error, plain, text, has_suffix, cut,
}
use cluster_api_ipam_provide.Infoblox.Wapi.{WapiErrorContent}

-- `isNotFound`, of an error that is not nil
unfoldable pub is_not_found : Error → Bool
is_not_found e = has_suffix (text e) "not found"

-- `tryParseWapiError`, of an error that is not nil: the JSON body behind `Contents:` replaces the
-- text, if there is one that can be decoded.
unfoldable pub try_parse_wapi_error : (String → Option WapiErrorContent) → Error → Error
try_parse_wapi_error unmarshal e = elim (cut (text e) "Contents:") [
  | none ↦ e
  | some (_, content) ↦ elim (unmarshal content) [
    | none ↦ e
    | some c ↦ plain (c.text <> (" (" <> (c.code <> ")")))
  ]
]

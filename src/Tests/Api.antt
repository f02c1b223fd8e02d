-- ===== src/Tests/Api.antt =====
-- The API's answers at a state with two peers.
use kintunnel.Base.{◌≡◌, some, lit}
use kintunnel.Api.{list_peers}
use kintunnel.Api.Views.{without_keys, list_peers-without_keys}
use kintunnel.Tests.Samples.{platform, state}

list_peers-without_keys_example :
    list_peers platform 3 (some (lit "active")) (without_keys state)
    ≡ list_peers platform 3 (some (lit "active")) state
list_peers-without_keys_example = list_peers-without_keys platform 3 (some (lit "active")) state

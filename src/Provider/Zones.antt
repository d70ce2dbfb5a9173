-- ===== src/Provider/Zones.antt =====
-- internal/edgecenter/edgecenter.go: the zones of the host and of instances.
use edgecenter_ccm.Prelude.{Str, Option, [], Exec, pure, deref, attempt, ◌>>=◌}
use edgecenter_ccm.Cloud.Host.{Host, Metadata}
use edgecenter_ccm.Cloud.Client.{Client}
use edgecenter_ccm.Instances.Lookup.{get_instance_by_name, instance_by_provider_id, renamed}
use edgecenter_ccm.Metadata.Search.{get}

-- cloudprovider.Zone
pub record Zone : Type 0 where
  pub failure_domain : Str
  pub region : Str

-- GetZone
unfoldable pub get_zone :
    {State : Type 0} → Host State → Str → Str → Exec (Option Metadata × State) Zone
get_zone host region order = do
  md ← get host order
  m ← deref md
  pure (record { failure_domain = m.availability_zone; region = region })

module _ (c : Client) where
  open c use {State}

  -- GetZoneByProviderID
  unfoldable pub get_zone_by_provider_id : Str → Str → Exec State Zone
  get_zone_by_provider_id region provider_id = do
    instance ← instance_by_provider_id c provider_id
    pure (record { failure_domain = []; region = region })

  -- GetZoneByNodeName
  unfoldable pub get_zone_by_node_name : Str → Str → Exec State Zone
  get_zone_by_node_name region name = do
    got ← attempt (get_instance_by_name c name)
    instance ← renamed c got
    pure (record { failure_domain = []; region = region })

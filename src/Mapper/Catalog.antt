-- ===== src/Mapper/Catalog.antt =====
-- ml/semantic_mapper/mapper.py: the catalog of canonical fields, in the order of the source.
pub mod Network
pub mod Event
pub mod Transport
pub mod Identity
pub mod Web
pub mod Dns
pub mod Device
use ulpx.Base.{List, ◌++◌}
use ulpx.Mapper.{CanonicalFieldDefinition}
use Network.{network_fields}
use Event.{event_fields}
use Transport.{transport_fields}
use Identity.{identity_fields}
use Web.{web_fields}
use Dns.{dns_fields}
use Device.{device_fields}

abbrev pub definitions : List CanonicalFieldDefinition
definitions =
    network_fields
    ++ (event_fields
        ++ (transport_fields ++ (identity_fields ++ (web_fields ++ (dns_fields ++ device_fields)))))

-- ===== src/Mapper/Catalog/Device.antt =====
-- ml/semantic_mapper/mapper.py: the catalog's device and host context.
use ulpx.Base.{List, [], ◌∷◌, false, some}
use ulpx.Mapper.{CanonicalFieldDefinition, all_families}

abbrev device_hostname : CanonicalFieldDefinition
device_hostname = record {
  path = "device.hostname";
  expected_types = "string" ∷ [];
  description = "Device or appliance hostname";
  is_critical = false;
  event_families = all_families;
  aliases =
      "hostname" ∷ "host" ∷ "device_name" ∷ "device_hostname" ∷ "dhost" ∷ "shost" ∷ "devname"
      ∷ "node" ∷ [];
  suggested_transform = some "lowercase";
}

abbrev device_ip : CanonicalFieldDefinition
device_ip = record {
  path = "device.ip";
  expected_types = "ipv4" ∷ "ipv6" ∷ "ip" ∷ [];
  description = "Reporting device IP address";
  is_critical = false;
  event_families = all_families;
  aliases = "device_ip" ∷ "dev_ip" ∷ "dvc_ip" ∷ "sensor_ip" ∷ "agent_ip" ∷ "dvchost" ∷ [];
  suggested_transform = some "parse_ip";
}

abbrev pub device_fields : List CanonicalFieldDefinition
device_fields = device_hostname ∷ device_ip ∷ []

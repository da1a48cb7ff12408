-- ===== src/Mapper/Catalog/Network.antt =====
-- ml/semantic_mapper/mapper.py: the catalog's critical perimeter fields.
use ulpx.Base.{List, [], ◌∷◌, true, some}
use ulpx.Mapper.{
  CanonicalFieldDefinition, network_connection, firewall_policy, authentication, dns_activity,
  web_session, security_alert, generic_network_event,
}

abbrev src_ip : CanonicalFieldDefinition
src_ip = record {
  path = "src.ip";
  expected_types = "ipv4" ∷ "ipv6" ∷ "ip" ∷ [];
  description = "Source IP address of network event";
  is_critical = true;
  event_families =
      network_connection ∷ firewall_policy ∷ authentication ∷ dns_activity ∷ web_session
      ∷ security_alert ∷ generic_network_event ∷ [];
  aliases =
      "src" ∷ "src_ip" ∷ "source_ip" ∷ "srcip" ∷ "source_address" ∷ "s_ip" ∷ "source" ∷ "client_ip"
      ∷ "clientip" ∷ "c_ip" ∷ "src_addr" ∷ "sourceaddress" ∷ "initiator_ip" ∷ "sender_ip"
      ∷ "sourceipaddress" ∷ [];
  suggested_transform = some "parse_ip";
}

abbrev dst_ip : CanonicalFieldDefinition
dst_ip = record {
  path = "dst.ip";
  expected_types = "ipv4" ∷ "ipv6" ∷ "ip" ∷ [];
  description = "Destination IP address of network event";
  is_critical = true;
  event_families =
      network_connection ∷ firewall_policy ∷ authentication ∷ dns_activity ∷ web_session
      ∷ security_alert ∷ generic_network_event ∷ [];
  aliases =
      "dst" ∷ "dst_ip" ∷ "destination_ip" ∷ "dest_ip" ∷ "destip" ∷ "destination_address" ∷ "d_ip"
      ∷ "destination" ∷ "server_ip" ∷ "serverip" ∷ "dst_addr" ∷ "destaddress" ∷ "target_ip"
      ∷ "responder_ip" ∷ "destinationipaddress" ∷ [];
  suggested_transform = some "parse_ip";
}

abbrev src_port : CanonicalFieldDefinition
src_port = record {
  path = "src.port";
  expected_types = "integer" ∷ [];
  description = "Source port number";
  is_critical = true;
  event_families = network_connection ∷ firewall_policy ∷ web_session ∷ generic_network_event ∷ [];
  aliases =
      "spt" ∷ "src_port" ∷ "source_port" ∷ "srcport" ∷ "s_port" ∷ "sport" ∷ "client_port"
      ∷ "sourceport" ∷ [];
  suggested_transform = some "to_integer";
}

abbrev dst_port : CanonicalFieldDefinition
dst_port = record {
  path = "dst.port";
  expected_types = "integer" ∷ [];
  description = "Destination port number";
  is_critical = true;
  event_families =
      network_connection ∷ firewall_policy ∷ dns_activity ∷ web_session ∷ generic_network_event
      ∷ [];
  aliases =
      "dpt" ∷ "dst_port" ∷ "destination_port" ∷ "dest_port" ∷ "destport" ∷ "d_port" ∷ "dport"
      ∷ "server_port" ∷ "destinationport" ∷ "service_port" ∷ [];
  suggested_transform = some "to_integer";
}

abbrev pub network_fields : List CanonicalFieldDefinition
network_fields = src_ip ∷ dst_ip ∷ src_port ∷ dst_port ∷ []

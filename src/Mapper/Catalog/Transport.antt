-- ===== src/Mapper/Catalog/Transport.antt =====
-- ml/semantic_mapper/mapper.py: the catalog's transport and metrics.
use ulpx.Base.{List, [], ◌∷◌, false, some}
use ulpx.Mapper.{
  CanonicalFieldDefinition, network_connection, firewall_policy, web_session, generic_network_event,
}

abbrev network_protocol : CanonicalFieldDefinition
network_protocol = record {
  path = "network.protocol";
  expected_types = "string" ∷ [];
  description = "Network layer-4/7 protocol (e.g. tcp, udp, icmp)";
  is_critical = false;
  event_families = network_connection ∷ firewall_policy ∷ generic_network_event ∷ [];
  aliases =
      "proto" ∷ "protocol" ∷ "transport" ∷ "network_proto" ∷ "app_proto" ∷ "ip_protocol"
      ∷ "proto_name" ∷ [];
  suggested_transform = some "lowercase";
}

abbrev network_bytes_in : CanonicalFieldDefinition
network_bytes_in = record {
  path = "network.bytes_in";
  expected_types = "integer" ∷ [];
  description = "Bytes received by source or in session";
  is_critical = false;
  event_families = network_connection ∷ web_session ∷ generic_network_event ∷ [];
  aliases =
      "bytes_in" ∷ "in_bytes" ∷ "bytes_rcvd" ∷ "rcvd_bytes" ∷ "inbytes" ∷ "bytes_received"
      ∷ "bytesin" ∷ "rcvdbyte" ∷ "rx_bytes" ∷ [];
  suggested_transform = some "to_integer";
}

abbrev network_bytes_out : CanonicalFieldDefinition
network_bytes_out = record {
  path = "network.bytes_out";
  expected_types = "integer" ∷ [];
  description = "Bytes transmitted by source or in session";
  is_critical = false;
  event_families = network_connection ∷ web_session ∷ generic_network_event ∷ [];
  aliases =
      "bytes_out" ∷ "out_bytes" ∷ "bytes_sent" ∷ "sent_bytes" ∷ "outbytes" ∷ "bytes_transmitted"
      ∷ "bytesout" ∷ "sentbyte" ∷ "tx_bytes" ∷ [];
  suggested_transform = some "to_integer";
}

abbrev network_packets : CanonicalFieldDefinition
network_packets = record {
  path = "network.packets";
  expected_types = "integer" ∷ [];
  description = "Total packets in network exchange";
  is_critical = false;
  event_families = network_connection ∷ firewall_policy ∷ generic_network_event ∷ [];
  aliases = "packets" ∷ "pkts" ∷ "packet_count" ∷ "total_packets" ∷ "pkt_count" ∷ [];
  suggested_transform = some "to_integer";
}

abbrev pub transport_fields : List CanonicalFieldDefinition
transport_fields = network_protocol ∷ network_bytes_in ∷ network_bytes_out ∷ network_packets ∷ []

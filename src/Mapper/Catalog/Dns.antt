-- ===== src/Mapper/Catalog/Dns.antt =====
-- ml/semantic_mapper/mapper.py: the catalog's DNS activity.
use ulpx.Base.{List, [], ◌∷◌, false, some}
use ulpx.Mapper.{CanonicalFieldDefinition, dns_activity}

abbrev dns_query_name : CanonicalFieldDefinition
dns_query_name = record {
  path = "dns.query_name";
  expected_types = "string" ∷ [];
  description = "DNS queried hostname or domain name";
  is_critical = false;
  event_families = dns_activity ∷ [];
  aliases = "query" ∷ "qname" ∷ "query_name" ∷ "dns_query" ∷ "question" ∷ [];
  suggested_transform = some "lowercase";
}

abbrev dns_query_type : CanonicalFieldDefinition
dns_query_type = record {
  path = "dns.query_type";
  expected_types = "string" ∷ "integer" ∷ [];
  description = "DNS record query type (e.g. A, AAAA, TXT)";
  is_critical = false;
  event_families = dns_activity ∷ [];
  aliases = "qtype" ∷ "query_type" ∷ "record_type" ∷ "dns_type" ∷ [];
  suggested_transform = some "uppercase";
}

abbrev dns_response_code : CanonicalFieldDefinition
dns_response_code = record {
  path = "dns.response_code";
  expected_types = "string" ∷ "integer" ∷ [];
  description = "DNS response status / rcode (e.g. NOERROR, NXDOMAIN)";
  is_critical = false;
  event_families = dns_activity ∷ [];
  aliases = "rcode" ∷ "response_code" ∷ "dns_rcode" ∷ [];
  suggested_transform = some "trim";
}

abbrev pub dns_fields : List CanonicalFieldDefinition
dns_fields = dns_query_name ∷ dns_query_type ∷ dns_response_code ∷ []

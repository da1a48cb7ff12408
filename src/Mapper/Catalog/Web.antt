-- ===== src/Mapper/Catalog/Web.antt =====
-- ml/semantic_mapper/mapper.py: the catalog's HTTP and web session context.
use ulpx.Base.{List, [], ◌∷◌, false, some}
use ulpx.Mapper.{CanonicalFieldDefinition, web_session, security_alert}

abbrev http_method : CanonicalFieldDefinition
http_method = record {
  path = "http.method";
  expected_types = "string" ∷ [];
  description = "HTTP request verb (e.g. GET, POST)";
  is_critical = false;
  event_families = web_session ∷ [];
  aliases = "method" ∷ "http_method" ∷ "request_method" ∷ "verb" ∷ [];
  suggested_transform = some "uppercase";
}

abbrev http_status_code : CanonicalFieldDefinition
http_status_code = record {
  path = "http.status_code";
  expected_types = "integer" ∷ [];
  description = "HTTP response status code";
  is_critical = false;
  event_families = web_session ∷ [];
  aliases =
      "status_code" ∷ "http_status" ∷ "http_code" ∷ "response_code" ∷ "resp_code" ∷ "statuscode"
      ∷ [];
  suggested_transform = some "to_integer";
}

abbrev http_url : CanonicalFieldDefinition
http_url = record {
  path = "http.url";
  expected_types = "url" ∷ "string" ∷ [];
  description = "HTTP target URL or request URI";
  is_critical = false;
  event_families = web_session ∷ security_alert ∷ [];
  aliases = "url" ∷ "request_url" ∷ "uri" ∷ "request_uri" ∷ "path" ∷ "http_url" ∷ [];
  suggested_transform = some "trim";
}

abbrev http_user_agent : CanonicalFieldDefinition
http_user_agent = record {
  path = "http.user_agent";
  expected_types = "string" ∷ [];
  description = "HTTP Client User-Agent string";
  is_critical = false;
  event_families = web_session ∷ [];
  aliases = "user_agent" ∷ "useragent" ∷ "agent" ∷ "http_user_agent" ∷ "cs_user_agent" ∷ [];
  suggested_transform = some "trim";
}

abbrev pub web_fields : List CanonicalFieldDefinition
web_fields = http_method ∷ http_status_code ∷ http_url ∷ http_user_agent ∷ []

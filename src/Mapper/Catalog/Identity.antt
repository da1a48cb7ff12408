-- ===== src/Mapper/Catalog/Identity.antt =====
-- ml/semantic_mapper/mapper.py: the catalog's identity and user context.
use ulpx.Base.{List, [], ◌∷◌, true, false, some}
use ulpx.Mapper.{CanonicalFieldDefinition, authentication, web_session, security_alert}

abbrev user_name : CanonicalFieldDefinition
user_name = record {
  path = "user.name";
  expected_types = "string" ∷ [];
  description = "Username or user identity";
  is_critical = true;
  event_families = authentication ∷ web_session ∷ security_alert ∷ [];
  aliases =
      "user" ∷ "username" ∷ "user_name" ∷ "account" ∷ "login" ∷ "usr" ∷ "actor" ∷ "account_name"
      ∷ "src_user" ∷ "source_username" ∷ "duser" ∷ "suser" ∷ [];
  suggested_transform = some "trim";
}

abbrev user_id : CanonicalFieldDefinition
user_id = record {
  path = "user.id";
  expected_types = "string" ∷ "integer" ∷ [];
  description = "Unique identifier for user account";
  is_critical = true;
  event_families = authentication ∷ web_session ∷ [];
  aliases = "uid" ∷ "user_id" ∷ "userid" ∷ "account_id" ∷ "actor_id" ∷ [];
  suggested_transform = some "trim";
}

abbrev user_email : CanonicalFieldDefinition
user_email = record {
  path = "user.email";
  expected_types = "email" ∷ "string" ∷ [];
  description = "User email address";
  is_critical = false;
  event_families = authentication ∷ web_session ∷ [];
  aliases = "email" ∷ "user_email" ∷ "mail" ∷ "user_mail" ∷ "sender_email" ∷ [];
  suggested_transform = some "lowercase";
}

abbrev user_domain : CanonicalFieldDefinition
user_domain = record {
  path = "user.domain";
  expected_types = "string" ∷ [];
  description = "User domain or realm";
  is_critical = false;
  event_families = authentication ∷ [];
  aliases = "domain" ∷ "user_domain" ∷ "realm" ∷ "account_domain" ∷ "nt_domain" ∷ [];
  suggested_transform = some "trim";
}

abbrev pub identity_fields : List CanonicalFieldDefinition
identity_fields = user_name ∷ user_id ∷ user_email ∷ user_domain ∷ []

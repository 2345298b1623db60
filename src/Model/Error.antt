-- ===== src/Model/Error.antt =====
-- crates/core/src/error.rs: the error that every component returns.
use stars_ad_permission_anal.Base.{String, ◌⊕◌}

pub data CoreError : Type 0 where
  ad_connection ldap_query sid_resolution access_denied path_not_found : String → CoreError
  invalid_security_descriptor unsupported_ace_type share_enumeration : String → CoreError
  database export : String → CoreError
  cancelled : CoreError
  validation reparse_cycle reparse_duplicate_target other_share : String → CoreError
  reparse_not_followed : String → CoreError

-- The `Display` of an error, from its `#[error]` attributes.
unfoldable pub display : CoreError → String
display (ad_connection s) = "AD connection error: " ⊕ s
display (ldap_query s) = "LDAP query error: " ⊕ s
display (sid_resolution s) = "SID resolution error: " ⊕ s
display (access_denied s) = "Access denied: " ⊕ s
display (path_not_found s) = "Path not found: " ⊕ s
display (invalid_security_descriptor s) = "Invalid security descriptor: " ⊕ s
display (unsupported_ace_type s) = "Unsupported ACE type: " ⊕ s
display (share_enumeration s) = "Share enumeration error: " ⊕ s
display (database s) = "Database error: " ⊕ s
display (export s) = "Export error: " ⊕ s
display cancelled = "Cancellation requested"
display (validation s) = "Validation error: " ⊕ s
display (reparse_cycle s) = "Reparse cycle: " ⊕ s
display (reparse_duplicate_target s) = "Duplicate reparse target: " ⊕ s
display (other_share s) = "Served from another share: " ⊕ s
display (reparse_not_followed s) = "Link not followed: " ⊕ s

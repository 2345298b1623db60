-- ===== src/Risk/Sensitive.antt =====
-- crates/risk_engine/src/rules.rs: `SensitivePathRule`. `str::to_lowercase` is a parameter.
use stars_ad_permission_anal.Base.{
  Bool, ◌&&◌, not, ◌==◌, List, [], ◌∷◌, Option, none, some, String, ◌⊕◌, any, find, filter, map,
  codes, contains_codes,
}
use stars_ad_permission_anal.Model.Effective.{EffectivePermission}
use stars_ad_permission_anal.Model.Risk.{medium}
use stars_ad_permission_anal.Risk.{audited, shown_name, finding}
use stars_ad_permission_anal.Risk.Rules.{Rule}

abbrev pub sensitive_keywords : List String
sensitive_keywords =
    "password" ∷ "passwort" ∷ "pwd" ∷ "login" ∷ "credential" ∷ "credentials" ∷ "secret" ∷ "secrets"
    ∷ "token" ∷ "api-key" ∷ "apikey" ∷ "keyfile" ∷ "private-key" ∷ "ssh-key" ∷ "private_key"
    ∷ "ssh_key" ∷ "id_rsa" ∷ "id_dsa" ∷ "id_ecdsa" ∷ "id_ed25519" ∷ "zugangsdaten" ∷ "kennwort"
    ∷ "kennwört" ∷ "kennwoert" ∷ ".kdbx" ∷ ".kdb" ∷ ".pfx" ∷ ".p12" ∷ ".ppk" ∷ []

abbrev or_sensitive : Option String → String
or_sensitive (some keyword) = keyword
or_sensitive none = "sensitive"

module _ (to_lowercase : String → String) where
  -- `p.path.0.to_lowercase().contains(kw)`
  abbrev pub names_keyword : EffectivePermission → String → Bool
  names_keyword p kw = contains_codes (codes kw) (codes (to_lowercase p.path))

  abbrev pub is_sensitive : EffectivePermission → Bool
  is_sensitive p = not ((audited p).mask == 0) && any (names_keyword p) sensitive_keywords

  unfoldable pub sensitive_path_rule : Rule
  sensitive_path_rule context =
      map
        (λ p.
          finding "SENSITIVE_PATH" medium
            ("Path contains keyword '"
              ⊕ or_sensitive (find (names_keyword p) sensitive_keywords)
              ⊕ "' — may contain credentials or secrets; '"
              ⊕ shown_name p
              ⊕ "' "
              ⊕ (audited p).has
              ⊕ " access"
              ⊕ (audited p).note)
            p)
        (filter is_sensitive context)

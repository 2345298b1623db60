-- ===== src/Files/Tests.antt =====
-- Reading two files that share a security descriptor, and one that is not there.
use stars_ad_permission_anal.Base.{
  ℕ, zero, suc, true, false, List, [], ◌∷◌, Option, none, some, String, Result, ok, err, map,
  str_eq, if◌then◌else◌, ◌≡◌, refl, ap, sym,
}
use stars_ad_permission_anal.Model.{allow}
use stars_ad_permission_anal.Files.Parse.{
  RawAce, RawDacl, RawSecurity, ParsedFields, parse_dacl, parse_security, parse_aces, parse_ace,
  ace_unreadable,
}
use stars_ad_permission_anal.Files.Parse.Counted.{IsAccounted, parse_dacl-counted}
use stars_ad_permission_anal.Files.{FileApi, fnv1a_64, fnv_from, read_all, read_file_system_object}
use stars_ad_permission_anal.Files.Cached.{read_all-read_file_system_object}

abbrev entries : ℕ → Option RawAce
entries i = elim i [
  | zero ↦
      some
        (record { ace_type = 0; flags = 0x13; mask = 0x0012_0089; sid = ok "S-1-5-21-7-8-9-1104" })
  | suc j ↦ none
]

abbrev dacl : RawDacl
dacl = record { ace_count = some 2; get_ace = entries }

parse_dacl-counted_example : IsAccounted dacl.get_ace dacl.ace_count (parse_dacl dacl)
parse_dacl-counted_example = parse_dacl-counted dacl

abbrev descriptor : RawSecurity
descriptor = record {
  sd_bytes = 1 ∷ 0 ∷ 4 ∷ [];
  owner = some (ok "S-1-5-32-544");
  dacl = some dacl;
  control = some 0x9004;
}

abbrev api : FileApi
api = record {
  attributes = λ path. if str_eq path "\\\\?\\C:\\gone" then err 2 else ok 0x10;
  security = λ path. ok descriptor;
  link_target = λ path. none;
}

empty_hash : fnv1a_64 [] ≡ 0xcbf2_9ce4_8422_2325
unfolding fnv1a_64 fnv_from
empty_hash = refl

abbrev meaning : List ℕ → ParsedFields
meaning bytes = parse_security descriptor

abbrev descriptor_or : Result ℕ RawSecurity → RawSecurity
descriptor_or (ok raw) = raw
descriptor_or (err code) = descriptor

descriptor-means :
    (path : String) (raw : RawSecurity)
    → api.security path ≡ ok raw
    → parse_security raw ≡ meaning raw.sd_bytes
descriptor-means path raw h = ap (λ r. parse_security (descriptor_or r)) (sym h)

-- The entry that cannot be read is reported as unsupported.
parsed : parse_security descriptor ≡ record {
  owner_sid = some "S-1-5-32-544";
  dacl =
      record {
        kind = allow;
        sid = "S-1-5-21-7-8-9-1104";
        mask = 0x0012_0089;
        inherited = true;
        inheritance_flags = 3;
        propagation_flags = 0;
      }
      ∷ [];
  unsupported_aces = ace_unreadable ∷ [];
  null_dacl = false;
  inheritance_disabled = true;
}
unfolding parse_security parse_dacl parse_aces parse_ace
parsed = refl

read_all-read_file_system_object_example :
    read_all api ("C:\\a" ∷ "C:\\gone" ∷ "C:\\b" ∷ []) []
    ≡ map (read_file_system_object api) ("C:\\a" ∷ "C:\\gone" ∷ "C:\\b" ∷ [])
read_all-read_file_system_object_example =
    read_all-read_file_system_object meaning api ("C:\\a" ∷ "C:\\gone" ∷ "C:\\b" ∷ [])
      descriptor-means

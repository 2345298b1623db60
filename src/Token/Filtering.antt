-- ===== src/Token/Filtering.antt =====
-- crates/permission_engine/src/engine.rs: `remote_uac_filtering` beside a table of the policies.
use stars_ad_permission_anal.Base.{
  Bool, true, false, not, ◌&&◌, ◌||◌, Option, none, some, ◌≡◌, refl, sym, String, arith, ◌==◌,
}
use stars_ad_permission_anal.Model.{
  PolicyDword, value, absent, unreadable, RemoteUacFiltering, filtered, not_filtered, unknown,
}
use stars_ad_permission_anal.Token.Uac.{flag, decide_remote, all_three, remote_uac_filtering}

abbrev pub is_filtered_verdict : RemoteUacFiltering → Bool
is_filtered_verdict (filtered reason) = true
is_filtered_verdict (not_filtered reason) = false
is_filtered_verdict unknown = false

abbrev pub is_not_filtered_verdict : RemoteUacFiltering → Bool
is_not_filtered_verdict (not_filtered reason) = true
is_not_filtered_verdict (filtered reason) = false
is_not_filtered_verdict unknown = false

-- The policy was read, and its value is on; an absent one has the default.
abbrev pub is_on : Bool → PolicyDword → Bool
is_on default (value n) = n == 1
is_on default absent = default
is_on default (unreadable reason) = false

abbrev pub is_off : Bool → PolicyDword → Bool
is_off default (value n) = n == 0
is_off default absent = not default
is_off default (unreadable reason) = false

-- The value says on or off.
abbrev pub is_switch : Bool → PolicyDword → Bool
is_switch default p = is_on default p || is_off default p

-- The same two tests on the switch that `flag` reads.
abbrev reads_on : Option Bool → Bool
reads_on (some b) = b
reads_on none = false

abbrev reads_off : Option Bool → Bool
reads_off (some b) = not b
reads_off none = false

flag-on : (p : PolicyDword) (default : Bool) → reads_on (flag p default) ≡ is_on default p
unfolding flag
flag-on (value n) default = ground arith
flag-on absent default = refl
flag-on (unreadable reason) default = refl

flag-off : (p : PolicyDword) (default : Bool) → reads_off (flag p default) ≡ is_off default p
unfolding flag
flag-off (value n) default = ground arith
flag-off absent default = refl
flag-off (unreadable reason) default = refl

-- The decision from the three switches.
abbrev verdict : Bool → String → Option (Bool × Bool × Bool) → RemoteUacFiltering
verdict builtin values none = unknown
verdict builtin values (some (lua, latfp, fat)) = decide_remote builtin lua latfp fat values

verdict-decides :
    (builtin : Bool) (values : String) (lua latfp fat : Option Bool)
    → let known =
        reads_on lua && (reads_on latfp || reads_off latfp) && (reads_on fat || reads_off fat) in
      let exempt = reads_on latfp || (builtin && reads_off fat) in
      (is_filtered_verdict (verdict builtin values (all_three lua latfp fat))
        ≡ (known && not exempt))
      × (is_not_filtered_verdict (verdict builtin values (all_three lua latfp fat))
          ≡ (known && exempt))
unfolding decide_remote all_three
verdict-decides builtin values none latfp fat = (refl, refl)
verdict-decides builtin values (some l) none fat = (ground arith, ground arith)
verdict-decides builtin values (some l) (some t) none = (ground arith, ground arith)
verdict-decides builtin values (some l) (some t) (some f) = (ground arith, ground arith)

-- Both verdicts follow from the three policies: with User Account Control on and the other two
-- readable as switches, the token is filtered unless LocalAccountTokenFilterPolicy is on, or the
-- account is the built-in Administrator and FilterAdministratorToken is off; then it is not
-- filtered. In every other case neither verdict is given.
pub verdict-remote_uac_filtering :
    (builtin : Bool) (lua latfp fat : PolicyDword)
    → let known = is_on true lua && is_switch false latfp && is_switch false fat in
      let exempt = is_on false latfp || (builtin && is_off false fat) in
      (is_filtered_verdict (remote_uac_filtering builtin lua latfp fat) ≡ (known && not exempt))
      × (is_not_filtered_verdict (remote_uac_filtering builtin lua latfp fat) ≡ (known && exempt))
unfolding remote_uac_filtering
verdict-remote_uac_filtering builtin lua latfp fat =
    rw
      (
        sym (flag-on lua true),
        sym (flag-on latfp false),
        sym (flag-off latfp false),
        sym (flag-on fat false),
        sym (flag-off fat false),
      )
      (verdict-decides builtin _ (flag lua true) (flag latfp false) (flag fat false))

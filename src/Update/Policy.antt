-- ===== src/Update/Policy.antt =====
-- crates/update_manager/src/verifier.rs: which updates `verify_update_policy` lets through, and what
-- that means for an installation that follows them.
use Prim.Native.Nat.{Ordering}
use stars_ad_permission_anal.Base.{
  true, false, String, Result, ok, err, ◌≡◌, refl, sym, ◌∙◌, ap, ◌↔◌, ◌⊎◌, arith,
}
use stars_ad_permission_anal.Model.Error.{CoreError}
use stars_ad_permission_anal.Update.Version.{AppVersion, parse, cmp}
use stars_ad_permission_anal.Update.Precedence.{cmp-IsOrder}
use stars_ad_permission_anal.Update.Manifest.{UpdateManifest}
use stars_ad_permission_anal.Update.Verifier.{
  Chrono, UpdatePolicyContext, check_issued_at, verify_update_policy, same_platform, same_channel,
}

-- The two texts are versions, and the first is the newer one.
abbrev pub IsNewer : String → String → Type 0
IsNewer a b =
    (v : AppVersion) × (w : AppVersion) × (parse a ≡ ok v)
    × (parse b ≡ ok w)
    × (cmp v w ≡ Ordering.gt)

cmp-gt_trans :
    (u v w : AppVersion) → cmp u v ≡ Ordering.gt → cmp v w ≡ Ordering.gt → cmp u w ≡ Ordering.gt
cmp-gt_trans u v w h k = ground (
  arith,
  cmp-IsOrder.swap u v,
  cmp-IsOrder.swap v w,
  cmp-IsOrder.swap w u,
  cmp-IsOrder.trans w v u,
)

IsNewer-trans : (a b c : String) → IsNewer a b → IsNewer b c → IsNewer a c
IsNewer-trans a b c (u, v, p, q, h) (v', w, q', r, k) =
    let same : ◌≡◌ {A = Result CoreError AppVersion} (ok v) (ok v') = sym q ∙ q' in
    (u, w, p, r, cmp-gt_trans u v w h (ground (arith, same)))

module _ (chrono : Chrono) where
  open chrono use {Time, read_time, later, elapsed, is_after, is_longer}

  module _ (manifest : UpdateManifest) (policy : UpdatePolicyContext chrono) where
    -- The time of issue can be read and lies in the window.
    abbrev pub IsTimely : Type 0
    IsTimely =
        (issued_at : Time) × (read_time manifest.issued_at ≡ ok issued_at)
        × (is_after issued_at (later policy.now_utc policy.max_future_skew) ≡ false)
        × (is_longer (elapsed policy.now_utc issued_at) policy.max_age ≡ false)

    abbrev pub AreVersions : Type 0
    AreVersions =
        (v : AppVersion) × (w : AppVersion) × (parse manifest.app_version ≡ ok v)
        × (parse policy.current_version ≡ ok w)
        × ((policy.allow_downgrade ≡ true) ⊎ (cmp v w ≡ Ordering.gt))

    timely :
        (t : Result String Time)
        → read_time manifest.issued_at ≡ t
        → (check_issued_at chrono manifest policy ≡ ok tt) ↔ IsTimely
    unfolding check_issued_at
    timely (ok t) e = (
      λ h. (t, e, ground (arith, h, e), ground (arith, h, e)),
      λ r. ground (arith, r.1, r.2, r.3),
    )
    timely (err m) e = (λ h. absurd (ground (arith, h, e)), λ r. ground (arith, e, r.1))

    -- What the policy asks of an update.
    abbrev pub IsAllowed : Type 0
    IsAllowed =
        (same_platform manifest.platform policy.current_platform ≡ true)
        × (same_channel manifest.channel policy.allowed_channel ≡ true)
        × AreVersions
        × IsTimely

    policy_iff :
        (a b : Result CoreError AppVersion)
        → parse manifest.app_version ≡ a
        → parse policy.current_version ≡ b
        → (verify_update_policy chrono manifest policy ≡ ok tt) ↔ IsAllowed
    unfolding verify_update_policy
    policy_iff (ok v) (ok w) p q =
        let t = timely (read_time manifest.issued_at) refl in
        (
          λ h. (
            ground (arith, h),
            ground (arith, h),
            (v, w, p, q, ground (arith, h, p, q)),
            t.0 (ground (arith, h, p, q)),
          ),
          λ r. ground (arith, p, q, r, t.1 r.3),
        )
    policy_iff (ok v) (err e) p q =
        (λ h. absurd (ground (arith, h, p, q)), λ r. ground (arith, q, r))
    policy_iff (err e) b p q = (λ h. absurd (ground (arith, h, p)), λ r. ground (arith, p, r))

    -- An update is let through exactly when its platform and its channel are the expected ones, both
    -- versions can be read and the new one is newer or downgrades are allowed, and its time of issue
    -- can be read, is not too far in the future and not too old.
    pub verify_update_policy-ok : (verify_update_policy chrono manifest policy ≡ ok tt) ↔ IsAllowed
    verify_update_policy-ok =
        policy_iff (parse manifest.app_version) (parse policy.current_version) refl refl

  -- The installation takes an update that its policy lets through, with downgrades forbidden.
  abbrev pub Accepts : String → String → Type 0
  Accepts installed next =
      (manifest : UpdateManifest) × (policy : UpdatePolicyContext chrono) × (policy.current_version
        ≡ installed)
      × (manifest.app_version ≡ next)
      × (policy.allow_downgrade ≡ false)
      × (verify_update_policy chrono manifest policy ≡ ok tt)

  -- One update after the other.
  pub data Updates (start : String) : String → Type 1 where
    first : {next : String} → Accepts start next → Updates start next
    more :
        {installed next : String}
        → Updates start installed
        → Accepts installed next
        → Updates start next

  Accepts-IsNewer : (installed next : String) → Accepts installed next → IsNewer next installed
  Accepts-IsNewer installed next (m, p, current, app, forbidden, accepted) =
      let (on_platform, on_channel, (v, w, reads, reads', order), timely) =
        (verify_update_policy-ok m p).0 accepted in
      (v, w, ap parse (sym app) ∙ reads, ap parse (sym current) ∙ reads', ground (arith, order))

  -- However many updates an installation takes without allowing downgrades: the version that it ends
  -- with is newer than the one that it started with.
  pub Updates-IsNewer : (start last : String) → Updates start last → IsNewer last start
  Updates-IsNewer start last (first a) = Accepts-IsNewer start last a
  Updates-IsNewer start last (more {installed = v} u a) =
      IsNewer-trans last v start (Accepts-IsNewer v last a) (Updates-IsNewer start v u)

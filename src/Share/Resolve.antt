-- ===== src/Share/Resolve.antt =====
-- crates/share_scanner/src/scanner.rs: from a path and the token of a user to the share mask that is
-- shown, with the number of entries that it does not account for.
use stars_ad_permission_anal.Base.{
  ℕ, ◌+◌, Bool, if◌then◌else◌, List, [], Option, none, some, String, str_eq, insert, remove, Result,
  ok, err, map, ◌≡◌, refl, ap, sym, ◌∙◌, arith,
}
use stars_ad_permission_anal.Model.{
  Sid, AccessContext, GroupMembership, ShareMaskStatus, not_applicable, applied, unrestricted,
  read_failed,
}
use stars_ad_permission_anal.Model.Error.{CoreError, display}
use stars_ad_permission_anal.Token.WellKnown.{sid_everyone, sid_anonymous_logon}
use stars_ad_permission_anal.Dacl.Walk.{AreWords}
use stars_ad_permission_anal.Bounds.Possible.{IsPossible}
use stars_ad_permission_anal.Paths.{SmbAuditContext, resolve}
use stars_ad_permission_anal.Share.{
  SharePermission, ShareDacl, null_dacl, no_security_descriptor, acl, ShareDaclScan, ShareToken,
  share_token, share_walk, evaluate_share_dacl,
}
use stars_ad_permission_anal.Share.Walk.{as_ace, as_bounds}
use stars_ad_permission_anal.Share.Exact.{evaluate_share_dacl-exact}
use stars_ad_permission_anal.Share.Decisions.{ShareAceDecision, share_ace_decisions}
use stars_ad_permission_anal.Share.Read.{ShareInfo, get_share_dacl}

pub record ShareResolution : Type 0 where
  pub status : ShareMaskStatus
  pub unevaluated : ℕ
  pub decisions : List ShareAceDecision

abbrev no_security_descriptor_reason : String
no_security_descriptor_reason =
    "the server reports no security descriptor for this share — it applies a built-in default Stars cannot see (for C$ and ADMIN$: administrators and backup operators only, lab-verified); the share permission is not determinable"

-- With the policy read, whether an anonymous logon counts as Everyone is decided.
unfoldable pub anonymous_token : String → Option Bool → ShareToken → ShareToken
anonymous_token user_sid none token = token
anonymous_token user_sid (some included) token =
    if str_eq user_sid sid_anonymous_logon
    then record {
      enabled = if included then insert sid_everyone token.enabled else token.enabled;
      deny_only = token.deny_only;
      uncertain = remove sid_everyone token.uncertain;
      deny_only_certain = token.deny_only_certain;
    }
    else token

abbrev with_certain : Bool → ShareToken → ShareToken
with_certain uac_filter_certain token = record {
  enabled = token.enabled;
  deny_only = token.deny_only;
  uncertain = token.uncertain;
  deny_only_certain = uac_filter_certain;
}

abbrev failed : ShareMaskStatus → ShareResolution
failed status = record { status = status; unevaluated = 0; decisions = [] }

abbrev pub status_of : Option ℕ → ShareMaskStatus
status_of (some mask) = applied mask
status_of none = unrestricted

abbrev evaluated : ShareDacl → ℕ → ShareToken → AccessContext → ShareResolution
evaluated dacl unsupported_count token access_context =
    let (mask, logon_dependent) = evaluate_share_dacl dacl token access_context in
    record {
      status = status_of mask;
      unevaluated = unsupported_count + logon_dependent;
      decisions = share_ace_decisions dacl token access_context;
    }

-- The `match` on the answer of `get_share_dacl`.
unfoldable pub from_scan :
    ShareToken → AccessContext → Result CoreError ShareDaclScan → ShareResolution
unfolding display
from_scan token access_context (err e) = failed (read_failed (display e))
from_scan token access_context (ok scan) = elim scan.dacl [
  | no_security_descriptor ↦ failed (read_failed no_security_descriptor_reason)
  | null_dacl ↦ evaluated null_dacl scan.unsupported_count token access_context
  | acl perms ↦ evaluated (acl perms) scan.unsupported_count token access_context
]

-- The arguments that the token is made of.
pub record ShareUser : Type 0 where
  pub user_sid : String
  pub sid_history : List Sid
  pub memberships : List GroupMembership
  pub local_group_sids : List Sid
  pub logon_dependent_group_sids : List Sid
  pub uac_filtered_group_sids : List Sid
  pub uac_filter_certain : Bool
  pub anonymous_everyone : Option Bool

unfoldable pub token_of : ShareUser → AccessContext → ShareToken
unfolding share_token anonymous_token
token_of user access_context = anonymous_token user.user_sid user.anonymous_everyone (
    with_certain user.uac_filter_certain (
      share_token user.user_sid user.sid_history user.memberships user.local_group_sids
        user.logon_dependent_group_sids user.uac_filtered_group_sids access_context))

unfoldable pub in_context :
    (String → String → ShareInfo)
    → ShareUser
    → AccessContext
    → Option SmbAuditContext
    → ShareResolution
unfolding from_scan
in_context net_share_get_info user access_context none = failed not_applicable
in_context net_share_get_info user access_context (some smb_ctx) =
    from_scan (token_of user access_context) access_context
      (get_share_dacl net_share_get_info smb_ctx.server smb_ctx.share)

unfoldable pub resolve_share_mask_status_explained :
    (String → String → ShareInfo)
    → String
    → Option String
    → Option String
    → ShareUser
    → AccessContext
    → ShareResolution
unfolding in_context
resolve_share_mask_status_explained net_share_get_info path smb_server share_name user
      access_context =
    in_context net_share_get_info user access_context (resolve path smb_server share_name)

unfoldable pub resolve_share_mask_status :
    (String → String → ShareInfo)
    → String
    → Option String
    → Option String
    → ShareUser
    → AccessContext
    → ShareMaskStatus × ℕ
unfolding resolve_share_mask_status_explained
resolve_share_mask_status net_share_get_info path smb_server share_name user access_context =
    let r =
      resolve_share_mask_status_explained net_share_get_info path smb_server share_name user
        access_context in
    (r.status, r.unevaluated)

shown_mask : (m : Option ℕ) (mask : ℕ) → status_of m ≡ applied mask → m ≡ some mask
shown_mask none mask h = absurd (ground (arith, h))
shown_mask (some bits) mask h = ground (arith, h)

-- A share with a DACL that is read is evaluated.
pub evaluated_share :
    (net_share_get_info : String → String → ShareInfo) (path : String)
    (smb_server share_name : Option String) (user : ShareUser) (access_context : AccessContext)
    (smb_ctx : SmbAuditContext) (perms : List SharePermission) (unsupported : ℕ)
    → resolve path smb_server share_name ≡ some smb_ctx
    → get_share_dacl net_share_get_info smb_ctx.server smb_ctx.share
      ≡ ok (record { dacl = acl perms; unsupported_count = unsupported })
    → resolve_share_mask_status net_share_get_info path smb_server share_name user access_context
      ≡ (
        status_of (evaluate_share_dacl (acl perms) (token_of user access_context) access_context).0,
        unsupported
            + (evaluate_share_dacl (acl perms) (token_of user access_context) access_context).1,
      )
unfolding resolve_share_mask_status
evaluated_share net_share_get_info path smb_server share_name user access_context smb_ctx perms
      unsupported context read =
    rw context (rw read refl)

-- If a mask is shown for a share and no entry counts as unevaluated, then the share was read with no
-- unsupported entry, and every possible real token of the user has exactly that mask, for entries
-- with 32-bit masks.
pub resolve_share_mask_status-exact :
    (net_share_get_info : String → String → ShareInfo) (path : String)
    (smb_server share_name : Option String) (user : ShareUser) (access_context : AccessContext)
    (smb_ctx : SmbAuditContext) (perms : List SharePermission) (unsupported mask : ℕ)
    (allows denies : String → Bool)
    → resolve path smb_server share_name ≡ some smb_ctx
    → get_share_dacl net_share_get_info smb_ctx.server smb_ctx.share
      ≡ ok (record { dacl = acl perms; unsupported_count = unsupported })
    → AreWords (map as_ace perms)
    → IsPossible
        (as_bounds (token_of user access_context) access_context)
        (map as_ace perms)
        allows
        denies
        0
    → resolve_share_mask_status net_share_get_info path smb_server share_name user access_context
      ≡ (applied mask, 0)
    → (unsupported ≡ 0) × (share_walk perms allows denies ≡ mask)
resolve_share_mask_status-exact net_share_get_info path smb_server share_name user access_context
      smb_ctx perms unsupported mask allows denies context read words possible shown =
    let token = token_of user access_context in
    let answer = evaluate_share_dacl (acl perms) token access_context in
    let same =
      evaluated_share net_share_get_info path smb_server share_name user access_context smb_ctx
        perms unsupported context read in
    let status = ap (λ r. r.0) (sym same ∙ shown) in
    let none_left : unsupported + answer.1 ≡ 0 = ap (λ r. r.1) (sym same ∙ shown) in
    let exact : answer ≡ (some mask, 0) =
      λ i. (shown_mask answer.0 mask status i, (let zero : answer.1 ≡ 0 = omega arith in zero) i) in
    (
      omega arith,
      evaluate_share_dacl-exact token access_context perms mask allows denies words possible exact,
    )

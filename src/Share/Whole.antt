-- ===== src/Share/Whole.antt =====
-- crates/share_scanner and crates/permission_engine together: the share mask that is resolved for a
-- path goes into the evaluation of the object.
mod Tests
use stars_ad_permission_anal.Base.{
  ℕ, ◌+◌, Bool, true, false, bit_and, List, Option, some, is_empty, filter, Bool-cases, inl, inr,
  String, map, ok, ◌≡◌, refl, sym, ap, ◌∙◌, arith,
}
use stars_ad_permission_anal.Model.{AccessContext, applied}
use stars_ad_permission_anal.Model.Effective.{effective_determinable}
use stars_ad_permission_anal.Dacl.Walk.{AreWords}
use stars_ad_permission_anal.Bounds.Possible.{IsPossible, rights}
use stars_ad_permission_anal.Paths.{SmbAuditContext, resolve}
use stars_ad_permission_anal.Engine.Input.{PermissionEvaluationInput}
use stars_ad_permission_anal.Engine.Rights.{bounds_input}
use stars_ad_permission_anal.Engine.Ranges.{determinable-no_share_gap}
use stars_ad_permission_anal.Engine.Exact.{through_share, evaluate_exact}
use stars_ad_permission_anal.Engine.{evaluate, is_refused}
use stars_ad_permission_anal.Share.{
  SharePermission, acl, ShareToken, share_walk, evaluate_share_dacl, enabled_in, denied_in,
  is_uncertain_share,
}
use stars_ad_permission_anal.Share.Walk.{as_ace, as_bounds}
use stars_ad_permission_anal.Share.Read.{ShareInfo, get_share_dacl}
use stars_ad_permission_anal.Share.Resolve.{
  ShareUser, token_of, status_of, resolve_share_mask_status, evaluated_share,
  resolve_share_mask_status-exact,
}

-- A DACL shows the grant of the stored-order walk.
shown-evaluate_share_dacl :
    (perms : List SharePermission) (token : ShareToken) (context : AccessContext)
    → (evaluate_share_dacl (acl perms) token context).0
      ≡ some (share_walk perms (enabled_in token) (denied_in token))
unfolding evaluate_share_dacl
shown-evaluate_share_dacl perms token context = ground arith

module _ (net_share_get_info : String → String → ShareInfo) (path : String)
    (smb_server share_name : Option String) (user : ShareUser) (smb_ctx : SmbAuditContext)
    (perms : List SharePermission) (unsupported : ℕ) (input : PermissionEvaluationInput)
    (allows denies : String → Bool) (owner : ℕ) where
  -- For an object with a DACL of 32-bit masks behind a share with a DACL of 32-bit masks, evaluated
  -- with the status and the count that the resolution of the share gives, and an account whose logon
  -- is not refused: if the result is called determinable, every real token that is possible for the
  -- object and for the share has exactly the effective mask shown, which is what both grant it.
  pub evaluate-through_share :
      resolve path smb_server share_name ≡ some smb_ctx
      → get_share_dacl net_share_get_info smb_ctx.server smb_ctx.share
        ≡ ok (record { dacl = acl perms; unsupported_count = unsupported })
      → (input.share_status, input.unsupported_share_ace_count)
        ≡ resolve_share_mask_status net_share_get_info path smb_server share_name user
            input.access_context
      → AreWords (map as_ace perms)
      → IsPossible
          (as_bounds (token_of user input.access_context) input.access_context)
          (map as_ace perms)
          allows
          denies
          0
      → input.file_system_object.null_dacl ≡ false
      → AreWords input.file_system_object.dacl
      → IsPossible (bounds_input input) input.file_system_object.dacl allows denies owner
      → is_refused input.selective_authentication ≡ false
      → effective_determinable (evaluate input) ≡ true
      → (evaluate input).effective_mask
        ≡ bit_and
            (rights input.file_system_object.dacl allows denies owner)
            (share_walk perms allows denies)
  evaluate-through_share context read taken share_words share_possible null words possible accepted
        sure =
      let token = token_of user input.access_context in
      let mask : ℕ = share_walk perms (enabled_in token) (denied_in token) in
      let none_left = determinable-no_share_gap input sure in
      let found =
        evaluated_share net_share_get_info path smb_server share_name user input.access_context
          smb_ctx perms unsupported context read in
      let status : input.share_status ≡ applied mask =
        ap (λ r. r.0) (taken ∙ found)
        ∙ ap status_of (shown-evaluate_share_dacl perms token input.access_context) in
      let exact =
        resolve_share_mask_status-exact net_share_get_info path smb_server share_name user
          input.access_context smb_ctx perms unsupported mask allows denies context read share_words
          share_possible (sym taken ∙ λ i. (status i, none_left i)) in
      let right = rights input.file_system_object.dacl allows denies owner in
      evaluate_exact input allows denies owner null words possible accepted sure
      ∙ ap (λ s. through_share s right) status
      ∙ ap (bit_and right) (sym exact.1)

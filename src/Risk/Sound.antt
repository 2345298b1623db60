-- ===== src/Risk/Sound.antt =====
-- crates/risk_engine/src/rules.rs on results of `evaluate`: the report beside the rights of the real
-- tokens that the known data leaves possible.
use stars_ad_permission_anal.Base.{
  ℕ, Bool, true, false, ==_iff, bit_and, List, ◌∷◌, [], String, any, ◌≡◌, ◌∙◌, ap, arith, BitsIn,
  BitsIn-of_and, and_of_BitsIn, bit, bit-and, eq_zero_of_bits, bit-zero,
}
use stars_ad_permission_anal.Mask.{mask_full_control}
use stars_ad_permission_anal.Model.Effective.{EffectivePermission, effective_upper_bound}
use stars_ad_permission_anal.Dacl.Walk.{AreWords}
use stars_ad_permission_anal.Bounds.Possible.{IsPossible, rights}
use stars_ad_permission_anal.Engine.Input.{PermissionEvaluationInput}
use stars_ad_permission_anal.Engine.Rights.{bounds_input}
use stars_ad_permission_anal.Engine.Exact.{through_share}
use stars_ad_permission_anal.Engine.UpperBound.{evaluate_bounded}
use stars_ad_permission_anal.Engine.{evaluate, is_refused}
use stars_ad_permission_anal.Risk.{holds_all, holds_some, content_write_bits}
use stars_ad_permission_anal.Risk.Complete.{
  is_about, write_ids, report, any-report, full_control-is_about, write_access-is_about,
}

holds_all_mono : (x u b : ℕ) → BitsIn x u → holds_all x b ≡ true → holds_all u b ≡ true
holds_all_mono x u b h e =
    (==_iff (bit_and u b) b).1
      (and_of_BitsIn u b (λ i k. h i (BitsIn-of_and x b ((==_iff (bit_and x b) b).0 e) i k)))

none-held : (x u b : ℕ) → BitsIn x u → bit_and u b ≡ 0 → bit_and x b ≡ 0
none-held x u b h e =
    eq_zero_of_bits (bit_and x b)
      λ i. ground (arith, h i, bit-and i x b, bit-and i u b, ap (bit i) e, bit-zero i)

holds_some_mono : (x u b : ℕ) → BitsIn x u → holds_some x b ≡ true → holds_some u b ≡ true
holds_some_mono x u b h e = ground (arith, none-held x u b h)

-- What a token with these rules really has through the share.
abbrev pub real : PermissionEvaluationInput → (String → Bool) → (String → Bool) → ℕ → ℕ
real input allows denies owner =
    through_share input.share_status (rights input.file_system_object.dacl allows denies owner)

module _ (lower : String → String) (before after : List EffectivePermission)
    (input : PermissionEvaluationInput) (allows denies : String → Bool) (owner : ℕ) where
  -- For an object with a DACL of 32-bit masks, an account whose logon is not refused and a possible
  -- real token: if the token has Full Control through the share, the report on results that include
  -- this evaluation has a FULL_CONTROL finding with its path and its identity.
  pub full_control-reported :
      input.file_system_object.null_dacl ≡ false
      → AreWords input.file_system_object.dacl
      → IsPossible (bounds_input input) input.file_system_object.dacl allows denies owner
      → is_refused input.selective_authentication ≡ false
      → holds_all (real input allows denies owner) mask_full_control ≡ true
      → any
          (is_about ("FULL_CONTROL" ∷ []) (evaluate input))
          (report lower before after (evaluate input))
        ≡ true
  full_control-reported null words possible accepted h =
      let bounded = evaluate_bounded input allows denies owner null words possible accepted in
      any-report lower before after (evaluate input)
        (is_about ("FULL_CONTROL" ∷ []) (evaluate input))
        (ground (
          arith,
          full_control-is_about (evaluate input),
          holds_all_mono (real input allows denies owner) (effective_upper_bound (evaluate input))
              mask_full_control bounded h,
        ))

  -- Under the same conditions: if the token can write content through the share, the report has a
  -- FULL_CONTROL, WRITE_ACCESS or PARTIAL_WRITE finding with the path and the identity.
  pub content_write-reported :
      input.file_system_object.null_dacl ≡ false
      → AreWords input.file_system_object.dacl
      → IsPossible (bounds_input input) input.file_system_object.dacl allows denies owner
      → is_refused input.selective_authentication ≡ false
      → holds_some (real input allows denies owner) content_write_bits ≡ true
      → any (is_about write_ids (evaluate input)) (report lower before after (evaluate input))
        ≡ true
  content_write-reported null words possible accepted h =
      let bounded = evaluate_bounded input allows denies owner null words possible accepted in
      any-report lower before after (evaluate input) (is_about write_ids (evaluate input)) (
        write_access-is_about (evaluate input)
        ∙ holds_some_mono (real input allows denies owner) (effective_upper_bound (evaluate input))
            content_write_bits bounded h)

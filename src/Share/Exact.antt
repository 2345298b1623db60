-- ===== src/Share/Exact.antt =====
-- crates/share_scanner/src/scanner.rs: a share mask with no entry counted as unevaluated is the one
-- that every possible real token has.
use stars_ad_permission_anal.Base.{
  ℕ, Bool, true, false, ◌||◌, ==_iff, bit_or-zero, List, [], ◌∷◌, String, ◌≢◌, none, map, filter,
  length, is_empty, some, ◌≡◌, refl, sym, ap, ◌∙◌, arith, ◌⊎◌, Bool-cases, inl, inr,
}
use mathlib.Core.Path.{fun_ext}
use stars_ad_permission_anal.Model.{AccessContext}
use stars_ad_permission_anal.Dacl.{walk_granted_with}
use stars_ad_permission_anal.Dacl.Walk.{AreWords}
use stars_ad_permission_anal.Bounds.{
  logon_dependent_bounds, uncertain_sids, upper_owner_bits, upper_bound, lower_bound,
}
use stars_ad_permission_anal.Bounds.Possible.{IsPossible, names, names-sorted, uncertain}
use stars_ad_permission_anal.Bounds.Exact.{bounds_exact}
use stars_ad_permission_anal.Share.{
  SharePermission, ShareToken, acl, share_walk, is_uncertain_share, enabled_in, denied_in, maybe_in,
  evaluate_share_dacl,
}
use stars_ad_permission_anal.Share.Walk.{
  as_ace, as_bounds, share_walk-as_ace, uncertain_sids-as_ace,
}

maybe_in-names :
    (ps : List SharePermission) (sid : String) → maybe_in ps sid ≡ names sid (map (λ p. p.sid) ps)
maybe_in-names [] sid = refl
maybe_in-names (p ∷ ps) sid = ground (arith, maybe_in-names ps sid)

length-positive {ℓ} : {A : Type ℓ} (xs : List A) → is_empty xs ≡ false → length xs ≢ 0
length-positive [] e = absurd (ground arith)
length-positive (x ∷ xs) e = omega arith

is_empty-map {ℓ κ} :
    {A : Type ℓ} {B : Type κ} (f : A → B) (xs : List A) → is_empty (map f xs) ≡ is_empty xs
is_empty-map f [] = refl
is_empty-map f (x ∷ xs) = refl

module _ (token : ShareToken) (context : AccessContext) (perms : List SharePermission) where
  doubtful : List SharePermission
  doubtful = filter (is_uncertain_share token context) perms

  maybe-uncertain :
      (sid : String)
      → names sid (uncertain (as_bounds token context) (map as_ace perms)) ≡ maybe_in doubtful sid
  unfolding doubtful
  maybe-uncertain sid =
      names-sorted sid (uncertain_sids (as_bounds token context) (map as_ace perms))
      ∙ ap (names sid) (uncertain_sids-as_ace token context perms)
      ∙ sym (maybe_in-names (filter (is_uncertain_share token context) perms) sid)

  share_upper :
      upper_bound
        (as_bounds token context)
        (map as_ace perms)
        (uncertain (as_bounds token context) (map as_ace perms))
      ≡ share_walk perms (λ s. enabled_in token s || maybe_in doubtful s) (denied_in token)
  unfolding upper_bound upper_owner_bits
  share_upper =
      bit_or-zero _
      ∙ ap (λ (f : String → Bool). walk_granted_with (map as_ace perms) f (denied_in token))
          (fun_ext (λ s. ap (λ (b : Bool). enabled_in token s || b) (maybe-uncertain s)))
      ∙ sym (share_walk-as_ace perms _ _)

  share_lower :
      lower_bound
        (as_bounds token context)
        (map as_ace perms)
        (uncertain (as_bounds token context) (map as_ace perms))
      ≡ share_walk perms (enabled_in token) (λ s. denied_in token s || maybe_in doubtful s)
  unfolding lower_bound
  share_lower =
      bit_or-zero _
      ∙ ap (λ (f : String → Bool). walk_granted_with (map as_ace perms) (enabled_in token) f)
          (fun_ext (λ s. ap (λ (b : Bool). denied_in token s || b) (maybe-uncertain s)))
      ∙ sym (share_walk-as_ace perms _ _)

  is_empty-doubtful :
      is_empty (uncertain_sids (as_bounds token context) (map as_ace perms)) ≡ is_empty doubtful
  unfolding doubtful
  is_empty-doubtful =
      ap is_empty (uncertain_sids-as_ace token context perms) ∙ is_empty-map (λ p. p.sid) _

  abbrev top : ℕ
  top = share_walk perms (λ s. enabled_in token s || maybe_in doubtful s) (denied_in token)

  abbrev bottom : ℕ
  bottom = share_walk perms (enabled_in token) (λ s. denied_in token s || maybe_in doubtful s)

  -- Nothing is counted only where there is no doubtful entry, or none that makes a difference.
  not_counted :
      (shown : ℕ)
      → evaluate_share_dacl (acl perms) token context ≡ (some shown, 0)
      → (shown ≡ share_walk perms (enabled_in token) (denied_in token))
        × ((is_empty doubtful ≡ true) ⊎ (bottom ≡ top))
  unfolding evaluate_share_dacl doubtful
  not_counted shown h =
      let ps = filter (is_uncertain_share token context) perms in
      elim (Bool-cases (is_empty ps)) [
        | inl e ↦ (ground (arith, h, e), inl e)
        | inr e ↦ (
          ground (arith, h, e),
          inr (ground (arith, h, e, length-positive ps e, ==_iff top bottom)),
        )
      ]

  no_bounds :
      (is_empty doubtful ≡ true) ⊎ (bottom ≡ top)
      → logon_dependent_bounds (as_bounds token context) (map as_ace perms) ≡ none
  unfolding logon_dependent_bounds upper_owner_bits
  no_bounds (inl e) = ground (arith, is_empty-doubtful, e)
  no_bounds (inr e) = ground (arith, share_upper, share_lower, e)

  -- For a share whose entries have 32-bit masks: if the evaluation counts no entry as unevaluated,
  -- every token that the known data leaves possible gets exactly the mask that is shown.
  pub evaluate_share_dacl-exact :
      (shown : ℕ) (allows denies : String → Bool)
      → AreWords (map as_ace perms)
      → IsPossible (as_bounds token context) (map as_ace perms) allows denies 0
      → evaluate_share_dacl (acl perms) token context ≡ (some shown, 0)
      → share_walk perms allows denies ≡ shown
  evaluate_share_dacl-exact shown allows denies words possible h =
      let (same, why) = not_counted shown h in
      share_walk-as_ace perms allows denies
      ∙ sym (bit_or-zero _)
      ∙ bounds_exact (as_bounds token context) (map as_ace perms) allows denies 0 words possible
          (no_bounds why)
      ∙ bit_or-zero _
      ∙ sym (share_walk-as_ace perms (enabled_in token) (denied_in token))
      ∙ sym same

-- ===== src/Share/Decisions.antt =====
-- crates/share_scanner/src/scanner.rs: what each share entry decided, and that this adds up to the
-- mask that is shown.
use stars_ad_permission_anal.Base.{
  ℕ, Bool, true, false, not, ◌&&◌, ◌||◌, ◌==◌, ==_iff, bit_or, bit, bit-or, bit-zero, bit_ext,
  bit_or-zero, if◌then◌else◌, List, [], ◌∷◌, some, contains, ◌≡◌, refl, sym, ap, Bool-cases, ◌∙◌,
  arith,
}
use mathlib.Core.Path.{fun_ext}
use stars_ad_permission_anal.Model.{Sid, AccessContext, AceKind}
use stars_ad_permission_anal.Dacl.{is_allow, is_deny}
use stars_ad_permission_anal.Share.{
  SharePermission, ShareDacl, null_dacl, no_security_descriptor, acl, ShareToken, open_share_bits,
  share_from, share_walk, is_uncertain_share, enabled_in, denied_in, evaluate_share_dacl,
  effective_from, effective_share_mask,
}

pub data ShareAceOutcome : Type 0 where
  decided : ℕ → ShareAceOutcome
  no_effect uncertain not_applicable : ShareAceOutcome

pub record ShareAceDecision : Type 0 where
  pub kind : AceKind
  pub sid : Sid
  pub mask : ℕ
  pub outcome : ShareAceOutcome

abbrev pub applies_to : ShareToken → SharePermission → Bool
applies_to token p = if is_allow p.kind then enabled_in token p.sid else denied_in token p.sid

unfoldable pub outcome_of : ShareToken → AccessContext → SharePermission → ℕ → ShareAceOutcome
unfolding is_uncertain_share
outcome_of token context p bits =
    if applies_to token p
    then (if bits == 0 then no_effect else decided bits)
    else if is_uncertain_share token context p
    then uncertain
    else not_applicable

-- The `map` over the entries, with the granted and the denied bits that it captures.
unfoldable pub decisions_from :
    ShareToken → AccessContext → List SharePermission → ℕ → ℕ → List ShareAceDecision
unfolding outcome_of
decisions_from token context [] granted denied = []
decisions_from token context (p ∷ rest) granted denied =
    let bits = open_share_bits p granted denied in
    record { kind = p.kind; sid = p.sid; mask = p.mask; outcome = outcome_of token context p bits }
    ∷ decisions_from token context rest
        (if applies_to token p && is_allow p.kind then bit_or granted bits else granted)
        (if applies_to token p && is_deny p.kind then bit_or denied bits else denied)

unfoldable pub share_ace_decisions : ShareDacl → ShareToken → AccessContext → List ShareAceDecision
unfolding decisions_from
share_ace_decisions null_dacl token context = []
share_ace_decisions no_security_descriptor token context = []
share_ace_decisions (acl perms) token context = decisions_from token context perms 0 0

abbrev decided_bits : ShareAceOutcome → ℕ
decided_bits (decided bits) = bits
decided_bits no_effect = 0
decided_bits uncertain = 0
decided_bits not_applicable = 0

-- The bits that the decisions of Allow entries name.
abbrev pub granted_by : List ShareAceDecision → ℕ
granted_by [] = 0
granted_by (d ∷ ds) =
    if is_allow d.kind then bit_or (decided_bits d.outcome) (granted_by ds) else granted_by ds

-- One entry: what it decides joins the granted bits, as far as it is an Allow that applies.
step_lem :
    (i g bits rest : ℕ) (allows applies doubt : Bool)
    → (bit i g
        || bit i (
            if allows
            then bit_or
                (decided_bits (
                  if applies
                  then (if bits == 0 then no_effect else decided bits)
                  else if doubt
                  then uncertain
                  else not_applicable))
                rest
            else rest))
      ≡ (bit i (if applies && allows then bit_or g bits else g) || bit i rest)
step_lem i g bits rest true true doubt = ground (
  arith,
  ==_iff bits 0,
  bit-or i g bits,
  bit-or i 0 rest,
  bit-or i bits rest,
  bit-zero i,
  λ (e : bits ≡ 0). ap (bit i) e,
)
step_lem i g bits rest true false doubt = ground (arith, bit-or i 0 rest, bit-zero i)
step_lem i g bits rest false applies doubt = ground arith

bit-decisions :
    (token : ShareToken) (context : AccessContext) (i : ℕ) (perms : List SharePermission) (g d : ℕ)
    → (bit i g || bit i (granted_by (decisions_from token context perms g d)))
      ≡ bit i (share_from (enabled_in token) (denied_in token) perms g d)
unfolding decisions_from outcome_of share_from
bit-decisions token context i [] g d = ground (arith, bit-zero i)
bit-decisions token context i (p ∷ perms) g d =
    let bits = open_share_bits p g d in
    let g' : ℕ = if applies_to token p && is_allow p.kind then bit_or g bits else g in
    let d' : ℕ = if applies_to token p && is_deny p.kind then bit_or d bits else d in
    let rest : ℕ = granted_by (decisions_from token context perms g' d') in
    step_lem i g bits rest (is_allow p.kind) (applies_to token p)
      (is_uncertain_share token context p)
    ∙ bit-decisions token context i perms g' d'

-- The bits of the Allow decisions of a share are the share mask that is shown for the same token.
pub granted_by-evaluate :
    (perms : List SharePermission) (token : ShareToken) (context : AccessContext)
    → (evaluate_share_dacl (acl perms) token context).0
      ≡ some (granted_by (share_ace_decisions (acl perms) token context))
unfolding evaluate_share_dacl share_ace_decisions share_walk
granted_by-evaluate perms token context =
    let sums : granted_by (decisions_from token context perms 0 0)
        ≡ share_from (enabled_in token) (denied_in token) perms 0 0 =
      bit_ext _ _ λ i. ground (arith, bit-decisions token context i perms 0 0, bit-zero i) in
    ground (arith, sums)

-- An entry with no open bit adds nothing, so that passing over it changes nothing.
passed_over :
    (old bits : ℕ) (matches kind : Bool)
    → (if matches && not (bits == 0) && kind then bit_or old bits else old)
      ≡ (if matches && kind then bit_or old bits else old)
passed_over old bits true true =
    ground (arith, ==_iff bits 0, bit_or-zero old, λ (e : bits ≡ 0). ap (bit_or old) e)
passed_over old bits true false = ground arith
passed_over old bits false kind = ground arith

either_way {ℓ} : {A : Type ℓ} (b : Bool) (x : A) → x ≡ (if b then x else x)
either_way true x = refl
either_way false x = refl

effective-share_from :
    (token : ShareToken) (perms : List SharePermission) (g d : ℕ)
    → effective_from token.enabled perms g d
      ≡ share_from (enabled_in token) (enabled_in token) perms g d
unfolding effective_from share_from
effective-share_from token [] g d = refl
effective-share_from token (p ∷ perms) g d =
    let matches = contains token.enabled p.sid in
    let bits = open_share_bits p g d in
    let after = λ (new_g new_d : ℕ). effective_from token.enabled perms new_g new_d in
    let old_d : ℕ = if matches && not (bits == 0) && is_deny p.kind then bit_or d bits else d in
    ap (λ new_g. after new_g old_d) (passed_over g bits matches (is_allow p.kind))
    ∙ ap (after _) (passed_over d bits matches (is_deny p.kind))
    ∙ effective-share_from token perms _ _
    ∙ ap
        (λ applies.
          share_from (enabled_in token) (enabled_in token) perms
            (if applies && is_allow p.kind then bit_or g bits else g)
            (if applies && is_deny p.kind then bit_or d bits else d))
        (either_way (is_allow p.kind) matches)

no_deny_only : (token : ShareToken) → token.deny_only ≡ [] → denied_in token ≡ enabled_in token
no_deny_only token h =
    fun_ext λ s. ground (arith, ap (λ set. contains set s) h, Bool-cases (contains token.enabled s))

-- For a token that holds no SID for Deny entries alone, the mask that `effective_share_mask` gives
-- the enabled SIDs is the mask that `evaluate_share_dacl` shows, whatever the descriptor holds.
effective_share_mask-evaluate_share_dacl :
    (dacl : ShareDacl) (token : ShareToken) (context : AccessContext)
    → token.deny_only ≡ []
    → effective_share_mask dacl token.enabled ≡ (evaluate_share_dacl dacl token context).0
unfolding effective_share_mask evaluate_share_dacl share_walk
effective_share_mask-evaluate_share_dacl null_dacl token context h = refl
effective_share_mask-evaluate_share_dacl no_security_descriptor token context h = refl
effective_share_mask-evaluate_share_dacl (acl perms) token context h =
    let same : effective_from token.enabled perms 0 0
        ≡ share_from (enabled_in token) (denied_in token) perms 0 0 =
      effective-share_from token perms 0 0
      ∙ ap (λ m. share_from (enabled_in token) m perms 0 0) (sym (no_deny_only token h)) in
    ground (arith, same)

-- ===== src/Share/Steps.antt =====
-- crates/share_scanner/src/scanner.rs: the decisions of the share entries as steps of the explanation
-- and as entries of the trace (crates/core/src/model.rs). The `BTreeMap` of names is a function.
use stars_ad_permission_anal.Base.{
  ℕ, Bool, false, List, [], ◌∷◌, Option, none, some, String, ◌⊕◌, is_empty, length, ◌≡◌, refl,
  arith, if◌then◌else◌,
}
use stars_ad_permission_anal.Base.Format.{hex8}
use stars_ad_permission_anal.Model.{Sid, AceKind, allow, deny}
use stars_ad_permission_anal.Mask.{expand_generic_rights}
use stars_ad_permission_anal.Mask.Label.{display_name}
use stars_ad_permission_anal.Share.Decisions.{
  ShareAceOutcome, decided, no_effect, uncertain, not_applicable, ShareAceDecision,
}

pub data TraceLayer : Type 0 where
  ntfs share : TraceLayer

pub data AceEffect : Type 0 where
  decided_bits : ℕ → AceEffect
  without_effect inherit_only : AceEffect
  uncertain_effect not_applied : String → AceEffect

pub record AceOutcome : Type 0 where
  pub layer : TraceLayer
  pub kind : AceKind
  pub sid : Sid
  pub trustee : String
  pub mask : ℕ
  pub inherited : Bool
  pub effect : AceEffect

abbrev with_name : String → Option String → String
with_name sid (some name) = name ⊕ " (" ⊕ sid ⊕ ")"
with_name sid none = sid

abbrev kind_name : AceKind → String
kind_name allow = "Allow"
kind_name deny = "Deny"

abbrev verb_of : AceKind → String
verb_of allow = "share grants"
verb_of deny = "share denies"

-- The note of a step, `none` for an entry that is left out.
unfoldable pub note_of : AceKind → ShareAceOutcome → Option String
note_of kind (decided bits) =
    some ("[" ⊕ verb_of kind ⊕ " " ⊕ display_name bits ⊕ " (0x" ⊕ hex8 bits ⊕ ")]")
note_of kind no_effect = some "[matched, no effective bits contributed]"
note_of kind uncertain =
    some
      "[UNCERTAIN — the trustee is in the token only for certain logons or session states; not in the shown share value]"
note_of kind not_applicable = none

abbrev step_text : (String → Option String) → ShareAceDecision → String → String
step_text sid_names d note =
    "Share ACE "
    ⊕ kind_name d.kind
    ⊕ " for "
    ⊕ with_name d.sid (sid_names d.sid)
    ⊕ " → "
    ⊕ display_name (expand_generic_rights d.mask)
    ⊕ " (0x"
    ⊕ hex8 d.mask
    ⊕ ") "
    ⊕ note

abbrev push_step :
    (String → Option String) → ShareAceDecision → Option String → List String → List String
push_step sid_names d none steps = steps
push_step sid_names d (some note) steps = step_text sid_names d note ∷ steps

-- The loop over the decisions.
unfoldable pub steps_from : (String → Option String) → List ShareAceDecision → List String
unfolding note_of
steps_from sid_names [] = []
steps_from sid_names (d ∷ ds) =
    push_step sid_names d (note_of d.kind d.outcome) (steps_from sid_names ds)

abbrev no_step : List ShareAceDecision → String
no_step [] = "Share DACL has no entries — the share grants nobody access"
no_step (d ∷ ds) = "No share ACE applies to this token — the share grants nothing"

unfoldable pub share_decision_steps : List ShareAceDecision → (String → Option String) → List String
unfolding steps_from
share_decision_steps decisions sid_names =
    let steps = steps_from sid_names decisions in
    if is_empty steps then no_step decisions ∷ [] else steps

unfoldable pub effect_of : ShareAceOutcome → Option AceEffect
effect_of (decided bits) = some (decided_bits bits)
effect_of no_effect = some without_effect
effect_of uncertain = some (
    uncertain_effect
      "the trustee is in the token only for certain logons or session states; not in the shown share value")
effect_of not_applicable = none

abbrev push_outcome :
    (String → Option String)
    → ShareAceDecision
    → Option AceEffect
    → List AceOutcome
    → List AceOutcome
push_outcome sid_names d none outcomes = outcomes
push_outcome sid_names d (some effect) outcomes =
    record {
      layer = share;
      kind = d.kind;
      sid = d.sid;
      trustee = with_name d.sid (sid_names d.sid);
      mask = d.mask;
      inherited = false;
      effect = effect;
    }
    ∷ outcomes

unfoldable pub share_ace_outcomes :
    List ShareAceDecision → (String → Option String) → List AceOutcome
unfolding effect_of
share_ace_outcomes [] sid_names = []
share_ace_outcomes (d ∷ ds) sid_names =
    push_outcome sid_names d (effect_of d.outcome) (share_ace_outcomes ds sid_names)

one_each :
    (sid_names : String → Option String) (d : ShareAceDecision) (o : ShareAceOutcome)
    (steps : List String) (outcomes : List AceOutcome)
    → length steps ≡ length outcomes
    → length (push_step sid_names d (note_of d.kind o) steps)
      ≡ length (push_outcome sid_names d (effect_of o) outcomes)
unfolding note_of effect_of
one_each sid_names d (decided bits) steps outcomes h = omega arith
one_each sid_names d no_effect steps outcomes h = omega arith
one_each sid_names d uncertain steps outcomes h = omega arith
one_each sid_names d not_applicable steps outcomes h = h

-- The explanation and the trace show the same number of share entries.
length-steps_from :
    (sid_names : String → Option String) (ds : List ShareAceDecision)
    → length (steps_from sid_names ds) ≡ length (share_ace_outcomes ds sid_names)
unfolding steps_from share_ace_outcomes
length-steps_from sid_names [] = refl
length-steps_from sid_names (d ∷ ds) =
    one_each sid_names d d.outcome (steps_from sid_names ds) (share_ace_outcomes ds sid_names)
      (length-steps_from sid_names ds)

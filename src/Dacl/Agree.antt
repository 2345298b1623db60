-- ===== src/Dacl/Agree.antt =====
-- crates/permission_engine/src/engine.rs: `walk_dacl_stored_order`, the walk of the result, beside
-- `walk_granted_with`, the walk of the bounds.
use stars_ad_permission_anal.Base.{◌||◌, List, ◌≡◌, ◌∙◌, sym, ap, arith, bit_ext, contains, SidSet}
use mathlib.Core.Path.{fun_ext}
use stars_ad_permission_anal.Model.{AceEntry}
use stars_ad_permission_anal.Dacl.Decision.{first_decider, allowed}
use stars_ad_permission_anal.Dacl.Walk.{AreWords, counted, bit-walk_granted_with, kind-cases}
use stars_ad_permission_anal.Dacl.StoredOrder.{matching}
use stars_ad_permission_anal.Dacl.Correct.{walk_decides}
use stars_ad_permission_anal.Dacl.{ace_matches, walk_dacl_stored_order, walk_granted_with}

matching-counted :
    (ms ds : SidSet) (ace : AceEntry)
    → matching ms ds ace ≡ counted (contains ms) (λ s. contains ms s || contains ds s) ace
unfolding ace_matches
matching-counted ms ds ace = ground (arith, kind-cases ace.kind)

-- For a DACL of 32-bit masks: what the stored-order walk grants is what `walk_granted_with` grants
-- when Allow entries match the token and Deny entries the token or a deny-only group.
pub walk_agrees :
    (dacl : List AceEntry) (ms ds : SidSet)
    → AreWords dacl
    → (walk_dacl_stored_order dacl ms ds).granted
      ≡ walk_granted_with dacl (contains ms) (λ s. contains ms s || contains ds s)
walk_agrees dacl ms ds words = bit_ext _ _ λ i.
    (walk_decides dacl ms ds i words).0
    ∙ ap (λ m. allowed (first_decider m i dacl)) (fun_ext (matching-counted ms ds))
    ∙ sym (bit-walk_granted_with (contains ms) (λ s. contains ms s || contains ds s) i dacl words)

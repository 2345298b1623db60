-- ===== src/Dacl/Correct.antt =====
-- crates/permission_engine/src/engine.rs: `walk_dacl_stored_order` against the decision rule, right
-- by right: what is granted, what is denied, who is named as the contributor, which entry decided.
use stars_ad_permission_anal.Base.{
  ℕ, Bool, true, false, not, ◌&&◌, ◌||◌, List, [], ◌∷◌, ◌++◌, Option, some, ◌≡◌, refl, ◌∙◌, sym, ap,
  arith, bit, bit-zero, IsU32, SidSet, str_eq, map, if◌then◌else◌,
}
use mathlib.Core.List.{append_assoc, map-append, append-nil}
use stars_ad_permission_anal.Model.{Sid, AceEntry}
use stars_ad_permission_anal.Mask.{expand_generic_rights}
use stars_ad_permission_anal.Dacl.Decision.{
  first_decider, allowed, refused, allowed_by, decider_marks,
}
use stars_ad_permission_anal.Dacl.Walk.{AreWords, kind-cases, head_decides, head_refuses}
use stars_ad_permission_anal.Dacl.StoredOrder.{
  matching, contributed, walk_ace-decided, bit-walk_ace-granted, bit-walk_ace-denied,
  bit-walk_ace-contributed, walk_ace-IsU32, bit-now,
}
use stars_ad_permission_anal.Dacl.{
  is_allow, is_deny, DaclWalkOutcome, walk_ace, walk_from, walk_dacl_stored_order, undecided_walk,
}

-- The Boolean content of one round for the contributions of one trustee.
head_contributes :
    (m : Bool) (ace : AceEntry) (e g d s : Bool) (sid : Sid) (later : Option AceEntry)
    → let x = m && (e && not (g || d)) in
      ((s || (is_allow ace.kind && str_eq ace.sid sid && x))
        || (not ((g || (is_allow ace.kind && x)) || (d || (is_deny ace.kind && x)))
            && allowed_by sid later))
      ≡ (s || (not (g || d) && allowed_by sid (if m && e then some ace else later)))
head_contributes m ace e g d s sid later = ground (arith, kind-cases ace.kind)

module _ (ms ds : SidSet) (i : ℕ) where
  walk_from-granted :
      (dacl : List AceEntry) (w : DaclWalkOutcome)
      → AreWords dacl
      → IsU32 w.granted
      → IsU32 w.denied
      → bit i (walk_from ms ds dacl w).granted ≡ (
          bit i w.granted
          || (not (bit i w.denied) && allowed (first_decider (matching ms ds) i dacl)))
  unfolding walk_from first_decider
  walk_from-granted [] w u hg hd = ground arith
  walk_from-granted (ace ∷ rest) w (ha, hr) hg hd =
      let h = walk_ace-IsU32 ms ds ace w ha hg hd in
      walk_from-granted rest (walk_ace ms ds ace w) hr h.0 h.1
      ∙ rw
          (
            bit-walk_ace-granted ms ds ace w i,
            bit-walk_ace-denied ms ds ace w i,
            bit-now ms ds ace w i ha,
          )
          (ground (
            arith,
            head_decides (matching ms ds ace) ace (bit i (expand_generic_rights ace.mask))
                (bit i w.granted) (bit i w.denied) (first_decider (matching ms ds) i rest),
          ))

  walk_from-denied :
      (dacl : List AceEntry) (w : DaclWalkOutcome)
      → AreWords dacl
      → IsU32 w.granted
      → IsU32 w.denied
      → bit i (walk_from ms ds dacl w).denied ≡ (
          bit i w.denied
          || (not (bit i w.granted) && refused (first_decider (matching ms ds) i dacl)))
  unfolding walk_from first_decider
  walk_from-denied [] w u hg hd = ground arith
  walk_from-denied (ace ∷ rest) w (ha, hr) hg hd =
      let h = walk_ace-IsU32 ms ds ace w ha hg hd in
      walk_from-denied rest (walk_ace ms ds ace w) hr h.0 h.1
      ∙ rw
          (
            bit-walk_ace-granted ms ds ace w i,
            bit-walk_ace-denied ms ds ace w i,
            bit-now ms ds ace w i ha,
          )
          (ground (
            arith,
            head_refuses (matching ms ds ace) ace (bit i (expand_generic_rights ace.mask))
                (bit i w.granted) (bit i w.denied) (first_decider (matching ms ds) i rest),
          ))

  walk_from-contributed :
      (sid : Sid) (dacl : List AceEntry) (w : DaclWalkOutcome)
      → AreWords dacl
      → IsU32 w.granted
      → IsU32 w.denied
      → bit i (contributed sid (walk_from ms ds dacl w).contributions) ≡ (
          bit i (contributed sid w.contributions)
          || (not (bit i w.granted || bit i w.denied)
              && allowed_by sid (first_decider (matching ms ds) i dacl)))
  unfolding walk_from first_decider
  walk_from-contributed sid [] w u hg hd = ground arith
  walk_from-contributed sid (ace ∷ rest) w (ha, hr) hg hd =
      let h = walk_ace-IsU32 ms ds ace w ha hg hd in
      walk_from-contributed sid rest (walk_ace ms ds ace w) hr h.0 h.1
      ∙ rw
          (
            bit-walk_ace-granted ms ds ace w i,
            bit-walk_ace-denied ms ds ace w i,
            bit-walk_ace-contributed ms ds ace w i sid,
            bit-now ms ds ace w i ha,
          )
          (head_contributes (matching ms ds ace) ace (bit i (expand_generic_rights ace.mask))
            (bit i w.granted) (bit i w.denied) (bit i (contributed sid w.contributions)) sid
            (first_decider (matching ms ds) i rest))

  -- Marks for the entries that come after a right is decided.
  abbrev marks_from : Bool → List AceEntry → List Bool
  marks_from decided dacl =
      if decided then map (λ _. false) dacl else decider_marks (matching ms ds) i dacl

  marks-nil : (decided : Bool) → marks_from decided [] ≡ []
  unfolding decider_marks
  marks-nil true = refl
  marks-nil false = refl

  marks-step :
      (ace : AceEntry) (rest : List AceEntry) (e g d : Bool)
      → e ≡ bit i (expand_generic_rights ace.mask)
      → let x = matching ms ds ace && (e && not (g || d)) in
        x ∷ marks_from ((g || (is_allow ace.kind && x)) || (d || (is_deny ace.kind && x))) rest
        ≡ marks_from (g || d) (ace ∷ rest)
  unfolding decider_marks
  marks-step ace rest e g d h = ground (arith, kind-cases ace.kind)

  walk_from-decided :
      (dacl : List AceEntry) (w : DaclWalkOutcome)
      → AreWords dacl
      → IsU32 w.granted
      → IsU32 w.denied
      → map (bit i) (walk_from ms ds dacl w).decided_per_ace
        ≡ map (bit i) w.decided_per_ace ++ marks_from (bit i w.granted || bit i w.denied) dacl
  unfolding walk_from decider_marks
  walk_from-decided [] w u hg hd = sym (
      ap (λ (l : List Bool). map (bit i) w.decided_per_ace ++ l)
        (marks-nil (bit i w.granted || bit i w.denied))
      ∙ append-nil _)
  walk_from-decided (ace ∷ rest) w (ha, hr) hg hd =
      let h = walk_ace-IsU32 ms ds ace w ha hg hd in
      let e : Bool = bit i (expand_generic_rights ace.mask) in
      walk_from-decided rest (walk_ace ms ds ace w) hr h.0 h.1
      ∙ rw
          (
            walk_ace-decided ms ds ace w,
            bit-walk_ace-granted ms ds ace w i,
            bit-walk_ace-denied ms ds ace w i,
            map-append,
            append_assoc,
            bit-now ms ds ace w i ha,
          )
          (ap (λ (l : List Bool). map (bit i) w.decided_per_ace ++ l)
            (marks-step ace rest e (bit i w.granted) (bit i w.denied) refl))

-- For a DACL of 32-bit masks and every right `i`: the walk grants it exactly when the first entry
-- that applies, matches the token and names the right is an Allow, and records it as denied
-- exactly when that entry is a Deny.
pub walk_decides :
    (dacl : List AceEntry) (ms ds : SidSet) (i : ℕ)
    → AreWords dacl
    → let first = first_decider (matching ms ds) i dacl in
      (bit i (walk_dacl_stored_order dacl ms ds).granted ≡ allowed first)
      × (bit i (walk_dacl_stored_order dacl ms ds).denied ≡ refused first)
unfolding walk_dacl_stored_order
walk_decides dacl ms ds i w = (
  walk_from-granted ms ds i dacl undecided_walk w (omega arith) (omega arith) ∙ rw (bit-zero i),
  walk_from-denied ms ds i dacl undecided_walk w (omega arith) (omega arith) ∙ rw (bit-zero i),
)

-- For a DACL of 32-bit masks, every trustee and every right `i`: the contributions name the right
-- for the trustee exactly when the entry that decides it is an Allow of this trustee.
pub walk_contributions :
    (dacl : List AceEntry) (ms ds : SidSet) (i : ℕ) (sid : Sid)
    → AreWords dacl
    → bit i (contributed sid (walk_dacl_stored_order dacl ms ds).contributions)
      ≡ allowed_by sid (first_decider (matching ms ds) i dacl)
unfolding walk_dacl_stored_order contributed
walk_contributions dacl ms ds i sid w =
    walk_from-contributed ms ds i sid dacl undecided_walk w (omega arith) (omega arith)
    ∙ rw (bit-zero i)

-- For a DACL of 32-bit masks and every right `i`: reading the right off `decided_per_ace` marks
-- the one entry that decides it and no other; the list has one entry for each entry of the DACL.
pub walk_provenance :
    (dacl : List AceEntry) (ms ds : SidSet) (i : ℕ)
    → AreWords dacl
    → map (bit i) (walk_dacl_stored_order dacl ms ds).decided_per_ace
      ≡ decider_marks (matching ms ds) i dacl
unfolding walk_dacl_stored_order
walk_provenance dacl ms ds i w =
    walk_from-decided ms ds i dacl undecided_walk w (omega arith) (omega arith) ∙ rw (bit-zero i)

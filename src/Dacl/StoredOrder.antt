-- ===== src/Dacl/StoredOrder.antt =====
-- crates/permission_engine/src/engine.rs: one round of `walk_dacl_stored_order`, right by right.
use stars_ad_permission_anal.Base.{
  ℕ, Bool, true, not, ◌&&◌, ◌||◌, bit_or, if◌then◌else◌, List, [], ◌∷◌, ◌++◌, ◌≡◌, arith, inl, inr,
  ◌⊎◌, Bool-cases, bit, bit-or, bit-zero, bit_or-IsU32, IsU32, SidSet, str_eq, str_eq_iff,
}
use stars_ad_permission_anal.Model.{Sid, AceEntry, ContributingAce}
use stars_ad_permission_anal.Mask.{expand_generic_rights}
use stars_ad_permission_anal.Dacl.Decision.{Matching}
use stars_ad_permission_anal.Dacl.Walk.{open_bits, open_bits-IsU32, bit-open_bits, kind-cases}
use stars_ad_permission_anal.Dacl.{
  is_allow, is_deny, ace_applies_to_current_object, ace_matches, DaclWalkOutcome, walk_ace, decide,
  skip, contribute,
}

-- The entries that the walk counts.
abbrev pub matching : SidSet → SidSet → Matching
matching match_sids deny_only_sids ace =
    ace_applies_to_current_object ace && ace_matches ace match_sids deny_only_sids

-- The bits that an entry decides in a state.
pub decided_bits : Bool → DaclWalkOutcome → AceEntry → ℕ
decided_bits counts w ace = if counts then open_bits w.granted w.denied ace else 0

-- What the contributions say of one trustee.
unfoldable pub contributed : Sid → List ContributingAce → ℕ
contributed sid [] = 0
contributed sid (c ∷ rest) =
    let later = contributed sid rest in if str_eq c.sid sid then bit_or c.mask later else later

bit-contribute :
    (i : ℕ) (sid s : Sid) (x : ℕ) (cs : List ContributingAce)
    → bit i (contributed sid (contribute s x cs))
      ≡ (bit i (contributed sid cs) || (str_eq s sid && bit i x))
unfolding contributed contribute
bit-contribute i sid s x [] = elim (Bool-cases (str_eq s sid)) [
  | inl same ↦ rw (same, bit-or i x 0, bit-zero i) (ground arith)
  | inr other ↦ rw (other, bit-zero i)
]
bit-contribute i sid s x (c ∷ cs) =
    let later = contributed sid cs in
    ground (
      arith,
      bit-contribute i sid s x cs,
      str_eq_iff c.sid s,
      str_eq_iff s sid,
      str_eq_iff c.sid sid,
      bit-or i (bit_or c.mask x) later,
      bit-or i c.mask x,
      bit-or i c.mask later,
      bit-or i c.mask (contributed sid (contribute s x cs)),
    )

module _ (ms ds : SidSet) where
  walk_ace-cases :
      (ace : AceEntry) (w : DaclWalkOutcome)
      → let x = decided_bits (matching ms ds ace) w ace in
        ((walk_ace ms ds ace w ≡ skip w) × (x ≡ 0))
        ⊎ ((walk_ace ms ds ace w ≡ decide ace x w) × (matching ms ds ace ≡ true))
  unfolding walk_ace decided_bits open_bits
  walk_ace-cases ace w = ground arith

  module _ (ace : AceEntry) (w : DaclWalkOutcome) where
    abbrev pub now : ℕ
    now = decided_bits (matching ms ds ace) w ace

    pub walk_ace-decided : (walk_ace ms ds ace w).decided_per_ace ≡ w.decided_per_ace ++ now ∷ []
    unfolding skip decide
    walk_ace-decided = elim (walk_ace-cases ace w) [
      | inl (e, z) ↦ rw (e, z)
      | inr (e, m) ↦ rw e (ground arith)
    ]

    pub bit-walk_ace-granted :
        (i : ℕ)
        → bit i (walk_ace ms ds ace w).granted
          ≡ (bit i w.granted || (is_allow ace.kind && bit i now))
    unfolding skip decide
    bit-walk_ace-granted i = elim (walk_ace-cases ace w) [
      | inl (e, z) ↦ rw (e, z, bit-zero i) (ground arith)
      | inr (e, m) ↦ rw e (ground (arith, bit-or i w.granted now))
    ]

    pub bit-walk_ace-denied :
        (i : ℕ)
        → bit i (walk_ace ms ds ace w).denied ≡ (bit i w.denied || (is_deny ace.kind && bit i now))
    unfolding skip decide
    bit-walk_ace-denied i = elim (walk_ace-cases ace w) [
      | inl (e, z) ↦ rw (e, z, bit-zero i) (ground arith)
      | inr (e, m) ↦ rw e (ground (arith, bit-or i w.denied now, kind-cases ace.kind))
    ]

    pub bit-walk_ace-contributed :
        (i : ℕ) (sid : Sid)
        → bit i (contributed sid (walk_ace ms ds ace w).contributions) ≡ (
            bit i (contributed sid w.contributions)
            || (is_allow ace.kind && str_eq ace.sid sid && bit i now))
    unfolding skip decide
    bit-walk_ace-contributed i sid = elim (walk_ace-cases ace w) [
      | inl (e, z) ↦ rw (e, z, bit-zero i) (ground arith)
      | inr (e, m) ↦ rw e (ground (arith, bit-contribute i sid ace.sid now w.contributions))
    ]

    pub walk_ace-IsU32 :
        IsU32 ace.mask
        → IsU32 w.granted
        → IsU32 w.denied
        → IsU32 (walk_ace ms ds ace w).granted × IsU32 (walk_ace ms ds ace w).denied
    unfolding skip decide decided_bits
    walk_ace-IsU32 h hg hd = elim (walk_ace-cases ace w) [
      | inl (e, z) ↦ rw e (hg, hd)
      | inr (e, m) ↦
          rw (e, m)
            (ground (
              arith,
              bit_or-IsU32 w.granted (open_bits w.granted w.denied ace) hg,
              bit_or-IsU32 w.denied (open_bits w.granted w.denied ace) hd,
              open_bits-IsU32 w.granted w.denied ace h,
            ))
    ]

    pub bit-now :
        (i : ℕ)
        → IsU32 ace.mask
        → bit i now ≡ (
            matching ms ds ace
            && (bit i (expand_generic_rights ace.mask) && not (bit i w.granted || bit i w.denied)))
    unfolding decided_bits
    bit-now i h = elim (Bool-cases (matching ms ds ace)) [
      | inl yes' ↦ rw yes' (bit-open_bits i w.granted w.denied ace h)
      | inr no' ↦ rw no' (bit-zero i)
    ]

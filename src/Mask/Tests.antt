-- ===== src/Mask/Tests.antt =====
-- The expansion of a mask that holds a generic right beside a specific one.
use stars_ad_permission_anal.Base.{not32, ◌≡◌, refl}
use stars_ad_permission_anal.Mask.{expand_generic_rights, map_generic}
use stars_ad_permission_anal.Base.{true}
use stars_ad_permission_anal.Mask.Level.{LimitingSide, limiting_side, has_generic}

expand_execute : expand_generic_rights 0x2000_0002 ≡ 0x0012_00a2
unfolding expand_generic_rights map_generic not32
expand_execute = refl

limited_by_share : limiting_side 0x0013_01bf 0x0012_00a9 ≡ LimitingSide.share
unfolding not32 limiting_side
limited_by_share = refl

generic_read_found : has_generic 0x8000_0000 ≡ true
unfolding has_generic
generic_read_found = refl

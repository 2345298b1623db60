-- ===== src/Paths/Tests.antt =====
-- Paths with the long-path prefix and without, and the contexts that they give.
use stars_ad_permission_anal.Base.{none, some, ◌≡◌, refl}
use stars_ad_permission_anal.Base.Strings.{split, trim_start, strip_text}
use stars_ad_permission_anal.Paths.{
  strip_ignore_case, strip_long_path_prefix, to_windows_api_path, parse_unc_components, resolve,
}
use stars_ad_permission_anal.Paths.Prefix.{strip_long_path_prefix-to_windows_api_path}

unc_form : to_windows_api_path "\\\\fs01\\data" ≡ "\\\\?\\UNC\\fs01\\data"
unfolding to_windows_api_path strip_text
unc_form = refl

drive_form : to_windows_api_path "C:\\data" ≡ "\\\\?\\C:\\data"
unfolding to_windows_api_path strip_text
drive_form = refl

lower_case_prefix : strip_long_path_prefix "\\\\?\\unc\\fs01\\data" ≡ "\\\\fs01\\data"
unfolding strip_long_path_prefix strip_ignore_case
lower_case_prefix = refl

-- `parse_unc_components` reads the prefix in capitals only.
lower_case_not_parsed : parse_unc_components "\\\\?\\unc\\fs01\\data" ≡ none
unfolding parse_unc_components strip_text
lower_case_not_parsed = refl

from_the_path :
    resolve "\\\\fs01\\data\\folder" none (some "backup")
    ≡ some (record { server = "fs01"; share = "backup" })
unfolding resolve parse_unc_components strip_text split trim_start
from_the_path = refl

no_share : resolve "C:\\data" (some "fs01") none ≡ none
unfolding resolve parse_unc_components strip_text
no_share = refl

strip_long_path_prefix-to_windows_api_path_example :
    (strip_long_path_prefix (to_windows_api_path "\\\\fs01\\data") ≡ "\\\\fs01\\data")
    × (to_windows_api_path (to_windows_api_path "\\\\fs01\\data")
        ≡ to_windows_api_path "\\\\fs01\\data")
unfolding strip_text
strip_long_path_prefix-to_windows_api_path_example =
    strip_long_path_prefix-to_windows_api_path "\\\\fs01\\data" refl

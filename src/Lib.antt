-- ===== src/Lib.antt =====
-- Stars AD Permission Analyzer: what rights a Windows account has on a file or folder, how far the
-- answer can be relied on, what risks it means, and what changed between two scans.
--
-- The program reads identities and groups from Active Directory, access control lists from the
-- file system (crates/fs_scanner) and from shares (crates/share_scanner), and evaluates them in
-- crates/permission_engine. One evaluation builds the SIDs of the account's access token, walks the
-- DACL of the object in stored order, adds what an owner is granted, intersects the share
-- permissions and attaches a marker for everything that could not be known. crates/core/src/model.rs
-- has the data that the crates exchange, and derives from a result's markers what is uncertain in
-- it. crates/risk_engine reports risks of the results, crates/persistence compares two scans, and
-- crates/update_manager decides whether an update may be installed.
--
-- Which file models which part:
--
--   Mask      crates/permission_engine/src/mask.rs: `expand_generic_rights` (the walk calls it for
--             every entry; its bits are the subject of Mask/Expand), Mask/Level the standard levels,
--             `base_level` and `limiting_side`, Mask/Label `decompose`, `label`, `display_name` and
--             `rights_statement`, with Mask/Label/Complete on what they show.
--   Model     crates/core/src/model.rs: the records and enums. Model/Diagnostic the markers
--             `PermissionDiagnostic` with `uncertain_layer`, `is_incompleteness_trigger` and
--             `severity`, Model/Diagnostic/Summary their texts, Model/History the markers about
--             historical SIDs, Model/Effective `EffectivePermission` with `uncertainty`,
--             `is_incomplete` and `effective_upper_bound`.
--   Token     crates/permission_engine/src/engine.rs: Token/WellKnown the well-known SIDs,
--             Token/Build `build_token_sids_with_context`, Token/LocalGroups
--             `expand_local_groups_with`, Token/Uac User Account Control; Token/Members,
--             Token/FilteredKind, Token/Groups and Token/Filtering state what these give.
--   Dacl      crates/permission_engine/src/engine.rs: `walk_dacl_stored_order`,
--             `walk_granted_with`, `collect_matched_aces`; Dacl/Decision is the rule that the walks
--             are held against, in Dacl/Walk, Dacl/StoredOrder, Dacl/Correct and Dacl/Agree.
--             Dacl/Order is `dacl_order_finding`.
--   Bounds    crates/permission_engine/src/engine.rs: `logon_dependent_bounds`, with the possible
--             tokens in Bounds/Possible and the bounds against them in Bounds/Sound, Bounds/Exact.
--   Engine    crates/permission_engine/src/engine.rs: `evaluate`. Engine/Input its argument
--             (crates/core/src/traits.rs), Engine/Rights the local variables up to the share,
--             Engine/Markers the markers in the order in which they are pushed. Engine/Account,
--             Engine/Masks, Engine/Kept, Engine/Ranges, Engine/Exact and Engine/UpperBound are
--             about its result.
--   Risk      crates/risk_engine/src/rules.rs: Risk/Rules and Risk/Sensitive the six rules, which judge
--             the upper bound of a result, Risk/Registry `RuleRegistry` and `RiskAccumulator`;
--             Risk/Complete, Risk/Sound and Risk/Streaming are about what they report.
--   Delta     crates/persistence/src/delta.rs: two scans beside each other, `signature_diff` in Delta,
--             `diff_permission_lists` and `compare_scans` in Delta/Compare; Delta/Map, Delta/Diff,
--             Delta/Reasons and Delta/Runs are about them.
--   Update    crates/update_manager/src: Update/Version version.rs, Update/RelativePath and
--             Update/Manifest manifest.rs, Update/Verifier verifier.rs, Update/Checker checker.rs,
--             Update/Manager manager.rs; Update/Precedence, Update/Policy, Update/Integrity,
--             Update/Below and, on where a path leads, Update/Leads are about them.
--   Files     crates/fs_scanner/src/acl.rs: reading one object with the cache of security descriptors;
--             Files/Parse `parse_security`, `parse_dacl` and `parse_ace` (Files/Parse/Counted on
--             what they keep), Files/Cached is about the cache.
--   Share     crates/share_scanner/src/scanner.rs: `share_token`, `share_walk`, `evaluate_share_dacl`;
--             Share/Read `get_share_dacl` and `parse_share_dacl` (Share/Read/Counted on what they
--             keep), Share/Decisions `share_ace_decisions`, Share/Steps `share_decision_steps` and
--             `share_ace_outcomes`, Share/Resolve `resolve_share_mask_status_explained`. Share/Walk
--             and Share/Exact hold the evaluation against the bounds of an NTFS DACL, Share/Whole
--             joins the share to `evaluate`.
--   Analysis  crates/analysis/src: `resolve_share_status` and `uac_filtered_token_groups`.
--   Paths     crates/validation/src/path.rs: the long-path prefix, the parts of a UNC path and
--             `SmbAuditContext::resolve`; Paths/Prefix is about the prefix.
--   SidBytes  crates/ad_resolver/src/sid_util.rs: `sid_str_to_bytes` and `bytes_to_sid_str`, with
--             SidBytes/RoundTrip about them.
--   Base      what the modules share: bits of numbers, texts, sets of SIDs, sorting, formatting;
--             Base/Strings has the functions on `str` that the program calls.
--
-- How the code is modelled. A `u32` is a natural number; `!m` is `not32 m`, and a theorem that
-- needs its argument to be a 32-bit word says so. A SID is its text. A `HashSet<String>` is a list
-- of texts of which only the membership is read. A loop is a recursion over the list it reads with
-- the loop's variables as arguments, so that every definition terminates and no fuel is needed.
-- `mut` variables of `evaluate` are one definition for each value that the code reads later.
-- `sort` is an insertion sort, and `dedup` drops an entry equal to the one before it.
--
-- What a possible real token is. `Bounds.Possible.IsPossible` says which token the known data
-- leaves open: it has every certain trustee, and an applicable entry of the DACL whose trustee it
-- has is certain or one of the uncertain ones of `logon_dependent_bounds`. That the resolver's
-- data is right, and that Windows evaluates entries in stored order, is assumed by the program and
-- stands outside the model. `Dacl.Decision` states that order independently of the walk.
--
-- What is a parameter. The answers of the Windows API about files and shares come in the records of
-- Files (`FileApi`), Files/Parse and Share/Read (`ShareInfo`): a null pointer is `none`, an error is
-- its code. Also parameters are `str::to_lowercase` (Token/LocalGroups, Risk), the rows of the
-- database and the order in which a `HashMap` is walked (Delta/Compare), and SHA-256, the signature
-- scheme, JSON, the calendar and the HTTP request (Update).
--
-- Not modelled: the explanation path and the trace, which are sentences derived from the finished
-- result; log messages; the share trace and the membership detail, which serve the explanation.
-- Of the scanners, the walk over a tree, the identity of files, the enumeration of shares and the
-- links of DFS; of the storage, the SQL; the LDAP queries, the reports, the display of graphs, the
-- command line and the windows.
pub mod Base
pub mod Mask
pub mod Model
pub mod Dacl
pub mod Token
pub mod Bounds
pub mod Engine
pub mod Risk
pub mod Delta
pub mod Update
pub mod Share
pub mod Analysis
pub mod SidBytes
pub mod Paths
pub mod Files

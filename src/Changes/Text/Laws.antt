-- ===== src/Changes/Text/Laws.antt =====
-- Counting and replacing agree (`str::matches` and `str::replace`, as cli/src/changes.rs uses them).
use fstx.Base.{nat_eq, list_eq, list_ord, nat_ord}

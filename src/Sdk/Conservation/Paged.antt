-- ===== src/Sdk/Conservation/Paged.antt =====
-- A source of pages for runs of packages/sdk/src/conservation.ts, by the number cursors that
-- EscrowConservationSource declares.
use sub_rosa_issue.Prelude.{ℕ, ◌+◌, ltb, String, List, length, take, drop, if◌then◌else◌}
use sub_rosa_issue.Sdk.Conservation.{Page}

abbrev pub page_of : ℕ → List String → ℕ → Page
page_of size all cursor = record {
  addresses = take size (drop cursor all);
  total = length all;
  next_cursor = if ltb (cursor + size) (length all) then cursor + size else 0;
}

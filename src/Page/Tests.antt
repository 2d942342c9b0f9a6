-- ===== src/Page/Tests.antt =====
-- The theorems on islands/OsDetail.tsx at one page.

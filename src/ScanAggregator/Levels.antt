-- ===== src/ScanAggregator/Levels.antt =====
-- nest-api/src/scans/scan-aggregator.ts: the rows that a walk is closed with.

-- ===== src/Barcodes.antt =====
-- Barcodes and their import: src/modules/items.
pub mod Ean13
pub mod Checksum
pub mod Detection
pub mod Csv
pub mod CsvRoundTrip
pub mod Service
pub mod Generation
mod Tests

-- ===== src/File.antt =====
-- src/file: reading of separated values.
pub mod CsvFileReader

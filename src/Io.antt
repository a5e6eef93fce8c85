-- ===== src/Io.antt =====
-- src/io: the files of models and bundles, and CSV files.
pub mod Stream
pub mod Serialize
pub mod Bundle
pub mod RoundTrip
pub mod Csv
pub mod CsvText

-- ===== src/Converter.antt =====
-- internal/converter: the converters, the registry and the dispatcher that find one for a file, and the
-- conversions that write the artifacts of a file.
pub mod Registry
pub mod Formats
pub mod Utf8
pub mod Extract
pub mod Calls
pub mod Output
pub mod Convert
pub mod Validate
pub mod Render

-- ===== src/Json.antt =====
-- include/reflgen/json: the JSON format (RFC 8259).
pub mod Base64
pub mod Decimal
pub mod Writer
pub mod Input
pub mod Numbers
pub mod Strings
pub mod Reader
pub mod Safety
pub mod Tokens
pub mod Texts
pub mod ScalarSkip
pub mod Skip
pub mod Steps
pub mod Quoting
pub mod Scanning
pub mod Encoding
pub mod WriteCalls
pub mod Writing
pub mod ReadCalls
pub mod FloatText
pub mod Containers
pub mod BytesText
pub mod ReadTexts
pub mod Reading
pub mod RoundTrip

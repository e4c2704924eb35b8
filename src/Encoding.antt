-- ===== src/Encoding.antt =====
-- What the code uses of encoding/base64, encoding/json and the UTF-8 form of Go strings.
pub mod Base64
pub mod Utf8
pub mod Json

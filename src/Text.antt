-- ===== src/Text.antt =====
-- What the propagation headers use of Go's standard library: `strings.Split` and `strings.Join`,
-- `encoding/base64`, `strconv.Itoa` and `strconv.ParseInt`.
pub mod Parts
pub mod Base64
pub mod Number

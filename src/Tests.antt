-- ===== src/Tests.antt =====
-- The theorems at concrete inputs, and stand-ins for the libraries that the code calls.
mod Archive
mod Crypto
mod Delivery
mod Entries
mod FileName
mod Font
mod Base64
mod Hash
mod Html
mod Http
mod Image
mod Listing
mod Mime
mod QrCode
mod Setup
mod Sql
mod Unicode
mod Url
mod Util

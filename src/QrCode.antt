-- ===== src/QrCode.antt =====
-- src/qr_code.cpp: a QR symbol as an RGB image and as a text of half blocks. The encoder (libqrencode)
-- is a parameter: what it gives for the text. Sizes are those that `std::int32_t` holds, where none of
-- the products overflows and no margin is negative.
pub mod Symbol
pub mod Image
pub mod Text

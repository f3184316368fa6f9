-- ===== src/Crypto.antt =====
-- crypto.go: PKCS#7 padding and AES-ECB. The block cipher of `crypto/aes` is a parameter.
pub mod Padding
pub mod Ecb
pub mod Hex
pub mod Random

-- ===== src/Bits.antt =====
-- Binary digits of a machine word, for the code that masks single bits of an array of words
-- (pintos/src/lib/kernel/bitmap.c). `bit w k` is digit `k` of `w`, and the children prove what the
-- native `bit_or`, `bit_and` and `bit_xor` do to it.
mod Steps
mod Digits
pub use Digits.*
pub use Steps.{bit_and-low}

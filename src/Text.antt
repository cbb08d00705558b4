-- ===== src/Text.antt =====
-- What the source uses of C's strings and of `snprintf`, over a buffer of a fixed size.
mod Digits
mod Buffer
unfoldable pub use Digits.*
unfoldable pub use Buffer.*

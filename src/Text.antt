-- ===== src/Text.antt =====
-- What the code takes from Go's strconv, fmt and encoding/hex: decimal numbers, hexadecimal text
-- and the order of strings. A string is the list of its bytes.
pub mod Decimal
pub mod Hex
pub mod Order
mod HexLaws
unfoldable pub use Decimal.*
unfoldable pub use Hex.*
unfoldable pub use Order.*
pub use HexLaws.{valid_hex_iff}

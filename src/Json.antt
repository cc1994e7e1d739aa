-- ===== src/Json.antt =====
-- `encoding/json` as the program uses it: `Tree` is a parsed text, `Scan` the parser, `Strings` the
-- string literals, `Decode` the rules of `json.Unmarshal`, `Print` those of `json.Marshal`.
pub mod Tree
pub mod Scan
pub mod Strings
pub mod Decode
pub mod Print
pub mod Octets
pub mod Members

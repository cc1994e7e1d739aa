-- ===== src/Relay/Bedrock.antt =====
-- cmd/relay-core/aws_bedrock.go: the AWS Bedrock upstream. `Credentials`, `Request` and `Response`
-- are the conversions, `Call` the signed call.
pub mod Credentials
pub mod Request
pub mod Said
pub mod Settings
pub mod Conversion
pub mod Encode
pub mod Response
pub mod Call
pub mod Host
pub mod Prepared
pub mod Region
pub mod Path
pub mod Signed
pub mod Described

-- ===== src/Official.antt =====
-- pkg/officialurls: the official upstreams, compiled into the enclave. `Table` is the table of base
-- URLs, `Rules` the tests on URLs and hosts, `Profiles` the way a provider is reached.
pub mod Table
pub mod Rules
pub mod Profiles
pub mod Paths
pub mod SigV4

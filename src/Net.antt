-- ===== src/Net.antt =====
-- internal/net: the parts of the Node's network layer that keep state.
pub mod Bucket
pub mod RateLimit
pub mod SubnetLimit
pub mod AuthCache
pub mod Abuse
pub mod Wire
pub mod Token
pub mod RootSelect

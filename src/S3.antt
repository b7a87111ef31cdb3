-- ===== src/S3.antt =====
-- lib/aws/s3: the S3 client. `Query` builds what is sent, `Xml` is the parser that it calls,
-- `Parse` reads the answers, and `Client` joins them over a session. `Session` prepares a session's
-- requests, `Stream` connects, `Exchange` sends and reads, `DnsCache` keeps the endpoints, and
-- `Online` is a client over all of it.
pub mod Parameters
pub mod Query
pub mod Types
pub mod Xml
pub mod Parse
pub mod Client
pub mod DnsCache
pub mod Session
pub mod Stream
pub mod Exchange
pub mod Online

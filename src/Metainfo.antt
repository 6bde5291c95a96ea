-- ===== src/Metainfo.antt =====
-- backend/app/torrents/metainfo.py: the checks of an uploaded torrent file.
pub mod Decimal
pub mod Bytes
pub mod Integer
pub mod Bencode
pub mod Printed
pub mod Steps
pub mod Reads
pub mod Pieces
pub mod Accepted
pub mod Ends
pub mod RoundTrip
pub mod Paths
pub mod PathSet
pub mod PathTree
pub mod Checks
pub mod Files
pub mod Rewrite
pub mod Scan
pub mod Infos
pub mod Identity
mod Examples
mod RewriteExamples

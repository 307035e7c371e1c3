-- ===== src/Http.antt =====
-- common_utils/http_types.h and common_utils/http_transaction.{h,cpp}.
pub mod Streams
pub mod Types
pub mod Curl
pub mod Headers
pub mod Transaction
pub mod Connection
pub mod Certificates
pub mod Perform

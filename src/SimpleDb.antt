-- ===== src/SimpleDb.antt =====
-- The file database of include/flowcoro/simple_db.h. A text is a list of bytes.
pub mod Document
pub mod RoundTrip
pub mod Collection
pub mod Store
mod Tests

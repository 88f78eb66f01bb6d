-- ===== src/Security.antt =====
-- kernel/security.c: identifiers, tokens, descriptors, access checks and system call policy.
-- kernel/security.h declares other fields for these structures than security.c uses; the records
-- have the fields that security.c names.
pub mod Sid
pub mod Token
pub mod Descriptor
pub mod Policy
pub mod Laws
mod Tests
pub mod Access
pub mod UserMemory

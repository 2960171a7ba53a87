-- ===== src/Codes.antt =====
-- The human-readable codes of the records, `L-01` or `INV-1015`. Each service allocates the next
-- one by the same query and prints it with String(n) and padStart (leases/leases.service.ts,
-- invoices/invoices.service.ts and the other services under src).
pub mod Decimal
pub mod Scheme
pub mod Fresh
pub mod Column
pub mod Ceiling

-- ===== src/Script/Pda/Tests.antt =====
-- The parameters at sample keys and seeds, and the addresses for one eid.

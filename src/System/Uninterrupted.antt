-- ===== src/System/Uninterrupted.antt =====
-- `handleTransaction` on an INVITE that no other step interrupts.

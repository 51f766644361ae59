-- ===== src/Worker/Invite/Converse.antt =====
-- When the invitation handler grants: the converse of `Grants`, on calls that succeed.

-- ===== src/Vault/Container/Marking.antt =====
-- The directory segments that `truncate` of vfs/vault/container.go marks.
use sqlite.Vault.Container.{Container}

-- ===== src/Desired/Binding/Raced.antt =====
-- api/accounts.rs with db/repo.rs: instances that are bound to a profile while it is edited.
use warpdeck.Prelude.Map

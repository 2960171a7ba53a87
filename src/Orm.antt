-- ===== src/Orm.antt =====
-- What the services use of TypeORM, as an interface: the select and write verbs of a repository
-- over a table, and a transaction. A table is its rows in the order of creation; a handler is an
-- action on the state of the backend that returns a value or throws.
mod Actions
mod Repository
mod Service
pub use Actions.*
pub use Repository.*
pub use Service.{or_unique, fire_trigger}
unfoldable pub use Service.{allocate_code}

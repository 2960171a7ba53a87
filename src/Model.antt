-- ===== src/Model.antt =====
-- The entities of the backend (the *.entity.ts files), the exceptions that the services throw, and
-- the state that the handlers act on.
mod Portfolio
mod Billing
mod Works
mod Accounts
mod Records
mod Messages
mod Exceptions
mod State
pub use Portfolio.*
pub use Billing.*
pub use Works.*
pub use Accounts.*
pub use Messages.*
pub use Records.*
pub use Exceptions.*
pub use State.*

-- ===== src/Models.antt =====
-- src/app/models/*.py: the rows of the tables, field by field. A UUID is a number, a `datetime` is a
-- number of microseconds and a `date` a number of days. The type of the float columns is the
-- parameter `F`. The columns `created_at` and `updated_at`, which the database fills, are left out.
mod Accounts
mod Tenancy
mod Spend
mod Audit
pub use Accounts.*
pub use Tenancy.*
pub use Spend.*
pub use Audit.*

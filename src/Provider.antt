-- ===== src/Provider.antt =====
-- What follows a provider's failure: electron/providers and the retry budgets of electron/session.
pub mod Retry

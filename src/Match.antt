-- ===== src/Match.antt =====
-- core/matcher: the argument filters, the index of the subscriptions and the RPC-side log filter.
pub mod Filters
pub mod Matcher
pub mod FilterSet

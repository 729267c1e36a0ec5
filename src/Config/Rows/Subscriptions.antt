-- ===== src/Config/Rows/Subscriptions.antt =====
-- core/config/repositories.py: the queries of SubscriptionRepo.
use chain_indexer.Base.{
  String, not, List, [], ◌∷◌, ◌++◌, map, filter, any, ◌==◌, string_comparable, pair_comparable,
}
use chain_indexer.Config.Rows.{Channel, Subscription, Database}

-- The channels that are bound to a subscription.
abbrev pub channels_of : Subscription → Database → List Channel
channels_of sub db =
    filter (λ ch. any (λ link. link == (sub.id, ch.id)) db.subscription_channels) db.channels

abbrev pub list_enabled_with_channels : Database → List (Subscription × List Channel)
list_enabled_with_channels db =
    map (λ sub. (sub, channels_of sub db)) (filter (λ sub. sub.enabled) db.subscriptions)

abbrev pub bind_channel : String → String → Database → Database
bind_channel sub_id channel_id db = record db {
  subscription_channels = db.subscription_channels ++ (sub_id, channel_id) ∷ [];
}

abbrev pub unbind_channel : String → String → Database → Database
unbind_channel sub_id channel_id db = record db {
  subscription_channels =
      filter (λ link. not (link == (sub_id, channel_id))) db.subscription_channels;
}

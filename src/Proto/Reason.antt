-- ===== src/Proto/Reason.antt =====
-- src/proto.rs, `mod reason`: the fixed ERROR reasons.
use keep_talking_sfu.Prelude.Wire.{Bytes, ascii}

abbrev pub room_full : Bytes
room_full = ascii "room full"

abbrev pub too_many_topics : Bytes
too_many_topics = ascii "too many topics"

abbrev pub rate_limited : Bytes
rate_limited = ascii "rate limited"

abbrev pub not_subscribed : Bytes
not_subscribed = ascii "not subscribed"

abbrev pub announce_too_large : Bytes
announce_too_large = ascii "announce too large"

abbrev pub publish_too_large : Bytes
publish_too_large = ascii "publish too large"

abbrev pub reserved_topic : Bytes
reserved_topic = ascii "reserved topic"

abbrev pub publish_on_session : Bytes
publish_on_session = ascii "publish on a lane stream"

abbrev pub no_such_recipient : Bytes
no_such_recipient = ascii "no such recipient"

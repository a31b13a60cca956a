-- ===== src/Proto/Tag.antt =====
-- src/proto.rs, `mod tag`: the frame type tags.
use keep_talking_sfu.Prelude.{ℕ}

abbrev pub subscribe : ℕ
subscribe = 0x21

abbrev pub unsubscribe : ℕ
unsubscribe = 0x22

abbrev pub announce : ℕ
announce = 0x23

abbrev pub publish : ℕ
publish = 0x24

abbrev pub publish_to : ℕ
publish_to = 0x25

abbrev pub snapshot : ℕ
snapshot = 0x31

abbrev pub joined : ℕ
joined = 0x32

abbrev pub left : ℕ
left = 0x33

abbrev pub presence : ℕ
presence = 0x34

abbrev pub deliver : ℕ
deliver = 0x35

abbrev pub error : ℕ
error = 0x3F

-- ===== src/ChannelTimeout/Tests.antt =====
-- A timeout across a wrap of the clock.

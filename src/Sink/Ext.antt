-- ===== src/Sink/Ext.antt =====
-- src/sink/mod.rs: the methods of `SinkExt`.
use cancel_safe_futures.Support.{assert_future}
use cancel_safe_futures.Sink.Defs.{Sink, Reserve, FlushReserve, new_reserve, new_flush_reserve}

module _ {W Item E : Type 0} (si : Sink W Item E) where
  unfoldable pub reserve : si.Si → Reserve si
  unfolding new_reserve
  reserve s = assert_future (new_reserve si s)

  unfoldable pub flush_reserve : si.Si → FlushReserve si
  unfolding new_flush_reserve
  flush_reserve s = assert_future (new_flush_reserve si s)

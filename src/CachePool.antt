-- ===== src/CachePool.antt =====
-- CachePacketManager of BufferManager.cpp. A CachePacketBuffer has one owner, the slot that points
-- to it, and so is modelled by value, in the slot; the manager is the number of buffers in its
-- `list_` and in its `useList_`.
use dubuframework.Base.{ℕ, ◌+◌, ◌-◌, ltb, if◌then◌else◌}

pub record CachePool : Type 0 where
  pub list : ℕ
  pub use_list : ℕ

-- CachePacketManager::PopPacketBuffer; with an empty list a buffer is allocated.
unfoldable pub pop_packet_buffer : CachePool → CachePool
pop_packet_buffer c =
    if ltb 0 c.list
    then record { list = c.list - 1; use_list = c.use_list + 1 }
    else record c { use_list = c.use_list + 1 }

-- CachePacketManager::PushPacketBuffer
unfoldable pub push_packet_buffer : CachePool → CachePool
push_packet_buffer c = record { list = c.list + 1; use_list = c.use_list - 1 }

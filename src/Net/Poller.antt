-- ===== src/Net/Poller.antt =====
-- src/net/poller/Poller.cc and src/net/poller/EPollPoller.cc. What the poller asks of the kernel is
-- a list of `epoll_ctl` calls; a channel is named by its descriptor.
pub mod Registration
use a_tiny_network_library.Common.{
  ℕ, ◌+◌, ◌*◌, ◌≡◌, Bool, true, false, List, [], ◌∷◌, ◌++◌, Option, none, some, if◌then◌else◌, ◌==◌,
  length, take,
}
use a_tiny_network_library.Net.Channel.{
  Channel, EventMask, Index, k_new, k_added, k_deleted, set_index, set_revents, is_none_event,
}

-- `epoll_ctl (epollfd_, operation, fd, &event)`.
pub data EpollCtl : Type 0 where
  ctl_add ctl_mod : ℕ → EventMask → EpollCtl
  ctl_del : ℕ → EpollCtl

-- `channels_`: the descriptors that are registered.
abbrev pub ChannelMap : Type 0
ChannelMap = List ℕ

unfoldable pub erase : ℕ → ChannelMap → ChannelMap
erase fd [] = []
erase fd (k ∷ ks) = let rest = erase fd ks in if k == fd then rest else k ∷ rest

unfoldable pub insert : ℕ → ChannelMap → ChannelMap
insert fd ks = fd ∷ erase fd ks

unfoldable pub has_fd : ℕ → ChannelMap → Bool
has_fd fd [] = false
has_fd fd (k ∷ ks) = let rest = has_fd fd ks in if k == fd then true else rest

-- The poller, the channel it works on, and the calls made.
pub record Update : Type 0 where
  pub channels : ChannelMap
  pub channel : Channel
  pub calls : List EpollCtl

unfoldable pub update_in : Index → ChannelMap → Channel → Update
update_in k_new m c = record {
  channels = insert c.fd m;
  channel = set_index k_added c;
  calls = ctl_add c.fd c.events ∷ [];
}
update_in k_deleted m c = record {
  channels = m;
  channel = set_index k_added c;
  calls = ctl_add c.fd c.events ∷ [];
}
update_in k_added m c =
    if is_none_event c
    then record { channels = m; channel = set_index k_deleted c; calls = ctl_del c.fd ∷ [] }
    else record { channels = m; channel = c; calls = ctl_mod c.fd c.events ∷ [] }

unfoldable pub update_channel : ChannelMap → Channel → Update
update_channel m c = update_in c.index m c

abbrev pub is_added : Index → Bool
is_added k_added = true
is_added _ = false

unfoldable pub remove_channel : ChannelMap → Channel → Update
remove_channel m c = record {
  channels = erase c.fd m;
  channel = set_index k_new c;
  calls = if is_added c.index then ctl_del c.fd ∷ [] else [];
}

-- The events of `epoll_wait` by descriptor. `fillActiveChannels` sets each channel's `revents_`.
unfoldable pub fill_active_channels : List (Channel × EventMask) → List Channel
fill_active_channels [] = []
fill_active_channels ((c, revents) ∷ es) = set_revents revents c ∷ fill_active_channels es

-- `poll` with what `epoll_wait` answers: the active channels, and the size of the event list.
unfoldable pub poll : ℕ → List (Channel × EventMask) → List Channel × ℕ
poll size events = (fill_active_channels events, if length events == size then size * 2 else size)

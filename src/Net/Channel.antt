-- ===== src/Net/Channel.antt =====
-- src/net/Channel.h and src/net/Channel.cc. An event mask is the record of the bits that the
-- program uses; a callback that is called is an entry of the list that `handle_event` answers.
pub mod Dispatch
use a_tiny_network_library.Common.{
  ℕ, ◌≡◌, Bool, true, false, not, ◌&&◌, ◌||◌, List, [], ◌∷◌, ◌++◌, if◌then◌else◌,
}

-- EPOLLIN, EPOLLPRI, EPOLLOUT, EPOLLERR, EPOLLHUP.
pub record EventMask : Type 0 where
  pub epoll_in : Bool
  pub epoll_pri : Bool
  pub epoll_out : Bool
  pub epoll_err : Bool
  pub epoll_hup : Bool

abbrev pub none_event : EventMask
none_event = record {
  epoll_in = false;
  epoll_pri = false;
  epoll_out = false;
  epoll_err = false;
  epoll_hup = false;
}

-- kNew, kAdded and kDeleted of the poller.
pub data Index : Type 0 where
  k_new k_added k_deleted : Index

pub record Channel : Type 0 where
  pub fd : ℕ
  pub events : EventMask
  pub revents : EventMask
  pub index : Index
  pub tied : Bool
  pub read_callback : Bool
  pub write_callback : Bool
  pub close_callback : Bool
  pub error_callback : Bool

-- A callback is told from an empty one; what it does is its owner's.
unfoldable pub init : ℕ → Channel
init fd = record {
  fd = fd;
  events = none_event;
  revents = none_event;
  index = k_new;
  tied = false;
  read_callback = false;
  write_callback = false;
  close_callback = false;
  error_callback = false;
}

unfoldable pub tie : Channel → Channel
tie c = record c { tied = true }

unfoldable pub set_revents : EventMask → Channel → Channel
set_revents revt c = record c { revents = revt }

unfoldable pub set_index : Index → Channel → Channel
set_index i c = record c { index = i }

-- The changes of the mask; each is followed by `update`, which is the poller's.
unfoldable pub enable_reading : Channel → Channel
enable_reading c = record c { events = record c.events { epoll_in = true; epoll_pri = true } }

unfoldable pub disable_reading : Channel → Channel
disable_reading c = record c { events = record c.events { epoll_in = false; epoll_pri = false } }

unfoldable pub enable_writing : Channel → Channel
enable_writing c = record c { events = record c.events { epoll_out = true } }

unfoldable pub disable_writing : Channel → Channel
disable_writing c = record c { events = record c.events { epoll_out = false } }

unfoldable pub disable_all : Channel → Channel
disable_all c = record c { events = none_event }

abbrev pub is_none : EventMask → Bool
is_none e = not (e.epoll_in || e.epoll_pri || e.epoll_out || e.epoll_err || e.epoll_hup)

unfoldable pub is_none_event : Channel → Bool
is_none_event c = is_none c.events

unfoldable pub is_writing : Channel → Bool
is_writing c = c.events.epoll_out

unfoldable pub is_reading : Channel → Bool
is_reading c = c.events.epoll_in || c.events.epoll_pri

pub data Callback : Type 0 where
  closes fails : Callback
  reads : ℕ → Callback
  writes : Callback

abbrev pub call_if : Bool → Callback → List Callback
call_if true f = f ∷ []
call_if false f = []

unfoldable pub handle_event_with_guard : ℕ → Channel → List Callback
handle_event_with_guard time c =
    call_if (c.revents.epoll_hup && not c.revents.epoll_in && c.close_callback) closes
    ++ (call_if (c.revents.epoll_err && c.error_callback) fails
        ++ (call_if ((c.revents.epoll_in || c.revents.epoll_pri) && c.read_callback) (reads time)
            ++ call_if (c.revents.epoll_out && c.write_callback) writes))

-- `alive`: the owner that the channel is tied to still exists.
unfoldable pub handle_event : ℕ → (alive : Bool) → Channel → List Callback
handle_event time alive c =
    if c.tied
    then (if alive then handle_event_with_guard time c else [])
    else handle_event_with_guard time c

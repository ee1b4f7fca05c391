-- ===== src/Net/Channel/Dispatch.antt =====
-- src/net/Channel.cc: which callbacks an event reaches.
use a_tiny_network_library.Common.{
  ℕ, ◌≡◌, Bool, true, false, not, ◌&&◌, ◌||◌, List, [], ◌∷◌, arith, ◌⊎◌, ◌↔◌,
}
use a_tiny_network_library.Net.Channel.{
  Channel, Callback, closes, fails, reads, writes, handle_event, handle_event_with_guard,
}

-- A callback is called: it stands in the list.
abbrev pub Calls : Callback → List Callback → Type 0
Calls f [] = ⊥
Calls f (g ∷ gs) = (f ≡ g) ⊎ Calls f gs

-- What the four callbacks of a channel answer to.
pub record Dispatches (time : ℕ) (alive : Bool) (c : Channel) (calls : List Callback) : Type 0 where
  pub on_close : Calls closes calls ↔ (
      ((c.tied && not alive) ≡ false)
      × (c.revents.epoll_hup ≡ true)
      × (c.revents.epoll_in ≡ false)
      × (c.close_callback ≡ true))
  pub on_error :
      Calls fails calls
      ↔ (((c.tied && not alive) ≡ false) × (c.revents.epoll_err ≡ true) × (c.error_callback ≡ true))
  pub on_read : Calls (reads time) calls ↔ (
      ((c.tied && not alive) ≡ false)
      × ((c.revents.epoll_in || c.revents.epoll_pri) ≡ true)
      × (c.read_callback ≡ true))
  pub on_write :
      Calls writes calls
      ↔ (((c.tied && not alive) ≡ false) × (c.revents.epoll_out ≡ true) × (c.write_callback ≡ true))

-- A channel that is not tied to an owner that is gone calls each of its callbacks that is set exactly
-- on its events: close on a hangup with nothing to read, error on an error, read on data or urgent
-- data, write on room. A tied channel whose owner is gone calls none of them.
pub handle_event-Dispatches :
    (time : ℕ) (alive : Bool) (c : Channel) → Dispatches time alive c (handle_event time alive c)
unfolding handle_event handle_event_with_guard
handle_event-Dispatches time alive c = record {
  on_close = ((λ h. ground arith), λ h. ground arith);
  on_error = ((λ h. ground arith), λ h. ground arith);
  on_read = ((λ h. ground arith), λ h. ground arith);
  on_write = ((λ h. ground arith), λ h. ground arith);
}

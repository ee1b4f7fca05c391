-- ===== src/Net/Poller/Registration.antt =====
-- src/net/poller/EPollPoller.cc: the kernel's interest list follows the channel.
use a_tiny_network_library.Common.{
  ℕ, ◌≡◌, refl, Bool, true, false, List, [], ◌∷◌, ◌++◌, Option, none, some, ◌==◌, not, Bool-cases,
  inl, inr, ==_refl, ◌>>=◌, >>=-eq-some, ◌∙◌, ap,
}
use a_tiny_network_library.Net.Channel.{
  Channel, EventMask, Index, k_new, k_added, k_deleted, set_index, is_none_event, enable_reading,
  disable_reading, enable_writing, disable_writing, disable_all,
}
use a_tiny_network_library.Net.Poller.{
  EpollCtl, ctl_add, ctl_mod, ctl_del, ChannelMap, Update, update_in, update_channel,
  remove_channel, insert, erase, has_fd,
}

-- What epoll_ctl(2) documents of one descriptor: ADD wants it absent from the interest list, MOD
-- and DEL want it present; `none` is the error EEXIST or ENOENT.
abbrev pub ctl : EpollCtl → Option EventMask → Option (Option EventMask)
ctl (ctl_add fd e) none = some (some e)
ctl (ctl_add fd e) (some e') = none
ctl (ctl_mod fd e) none = none
ctl (ctl_mod fd e) (some e') = some (some e)
ctl (ctl_del fd) none = none
ctl (ctl_del fd) (some e') = some none

abbrev pub ctl_all : List EpollCtl → Option EventMask → Option (Option EventMask)
ctl_all [] k = some k
ctl_all (c ∷ cs) k = ctl c k >>= λ k'. ctl_all cs k'

-- The kernel's entry for a channel with this index and these events.
abbrev pub Entry : Index → EventMask → Option EventMask → Type 0
Entry k_added e k = k ≡ some e
Entry k_new e k = k ≡ none
Entry k_deleted e k = k ≡ none

abbrev pub is_new : Index → Bool
is_new k_new = true
is_new _ = false

-- Kernel and poller agree with the channel: it is in the interest list exactly if its index says
-- kAdded, with its own events, and in the poller's map exactly if its index is not kNew.
pub record Agrees (m : ChannelMap) (c : Channel) (k : Option EventMask) : Type 0 where
  pub entry : Entry c.index c.events k
  pub mapped : has_fd c.fd m ≡ not (is_new c.index)

-- The operations of a channel that end in `update` or `remove`.
pub data Change : Type 0 where
  enables_reading disables_reading enables_writing disables_writing disables_all removes : Change

unfoldable pub change : Change → Channel → Channel
change enables_reading c = enable_reading c
change disables_reading c = disable_reading c
change enables_writing c = enable_writing c
change disables_writing c = disable_writing c
change disables_all c = disable_all c
change removes c = c

unfoldable pub apply : Change → ChannelMap → Channel → Update
apply removes m c = remove_channel m c
apply other m c = update_channel m (change other c)

-- The channel, the calls made so far and the poller's map after a sequence of changes.
unfoldable pub apply_all : List Change → ChannelMap → Channel → Update
apply_all [] m c = record { channels = m; channel = c; calls = [] }
apply_all (x ∷ xs) m c =
    let u = apply x m c in
    let rest = apply_all xs u.channels u.channel in record rest { calls = u.calls ++ rest.calls }

has_fd-erase : (fd : ℕ) (m : ChannelMap) → has_fd fd (erase fd m) ≡ false
unfolding has_fd erase
has_fd-erase fd [] = refl
has_fd-erase fd (k ∷ ks) = elim (Bool-cases (k == fd)) [
  | inl e ↦ rw e (has_fd-erase fd ks)
  | inr e ↦ rw (e, has_fd-erase fd ks) (rw e)
]

has_fd-insert : (fd : ℕ) (m : ChannelMap) → has_fd fd (insert fd m) ≡ true
unfolding has_fd insert
has_fd-insert fd m = rw (==_refl fd)

-- The kernel accepts the calls of `u`, and all agree again afterwards.
record Accepted (u : Update) (k : Option EventMask) : Type 0 where
  after : Option EventMask
  runs : ctl_all u.calls k ≡ some after
  agrees : Agrees u.channels u.channel after

-- A channel whose mask was just changed: the kernel may hold another one.
update_in-Accepted :
    (i : Index) (m : ChannelMap) (c : Channel) (e : EventMask) (k : Option EventMask)
    → c.index ≡ i
    → Entry i e k
    → has_fd c.fd m ≡ not (is_new i)
    → Accepted (update_in i m c) k
unfolding update_in set_index
update_in-Accepted k_new m c e k h r w = record {
  after = some c.events;
  runs = rw r;
  agrees = record { entry = refl; mapped = has_fd-insert c.fd m };
}
update_in-Accepted k_deleted m c e k h r w = record {
  after = some c.events;
  runs = rw r;
  agrees = record { entry = refl; mapped = w };
}
update_in-Accepted k_added m c e k h r w = elim (Bool-cases (is_none_event c)) [
  | inl empty ↦
      rw empty (record { after = none; runs = rw r; agrees = record { entry = refl; mapped = w } })
  | inr busy ↦ rw busy (record {
    after = some c.events;
    runs = rw r;
    agrees = record { entry = rw h refl; mapped = rw h w };
  })
]

remove_channel-Accepted :
    (i : Index) (m : ChannelMap) (c : Channel) (k : Option EventMask)
    → c.index ≡ i
    → Entry i c.events k
    → Accepted (remove_channel m c) k
unfolding remove_channel set_index
remove_channel-Accepted k_new m c k h r = record {
  after = none;
  runs = rw (h, r);
  agrees = record { entry = refl; mapped = has_fd-erase c.fd m };
}
remove_channel-Accepted k_deleted m c k h r = record {
  after = none;
  runs = rw (h, r);
  agrees = record { entry = refl; mapped = has_fd-erase c.fd m };
}
remove_channel-Accepted k_added m c k h r = record {
  after = none;
  runs = rw (h, r);
  agrees = record { entry = refl; mapped = has_fd-erase c.fd m };
}

apply-Accepted :
    (x : Change) (m : ChannelMap) (c : Channel) (k : Option EventMask)
    → Agrees m c k
    → Accepted (apply x m c) k
unfolding apply change update_channel enable_reading disable_reading enable_writing disable_writing
    disable_all
apply-Accepted enables_reading m c k a =
    update_in-Accepted c.index m _ c.events k refl a.entry a.mapped
apply-Accepted disables_reading m c k a =
    update_in-Accepted c.index m _ c.events k refl a.entry a.mapped
apply-Accepted enables_writing m c k a =
    update_in-Accepted c.index m _ c.events k refl a.entry a.mapped
apply-Accepted disables_writing m c k a =
    update_in-Accepted c.index m _ c.events k refl a.entry a.mapped
apply-Accepted disables_all m c k a =
    update_in-Accepted c.index m _ c.events k refl a.entry a.mapped
apply-Accepted removes m c k a = remove_channel-Accepted c.index m c k refl a.entry

ctl_all-append :
    (xs ys : List EpollCtl) (k k' : Option EventMask)
    → ctl_all xs k ≡ some k'
    → ctl_all (xs ++ ys) k ≡ ctl_all ys k'
ctl_all-append [] ys k k' e = ap (λ o. o >>= ctl_all ys) e
ctl_all-append (x ∷ xs) ys k k' e =
    let (k1, e1, e2) = >>=-eq-some (ctl x k) (ctl_all xs) e in rw e1 (ctl_all-append xs ys k1 k' e2)

-- Whatever a channel does, in any order, the kernel refuses none of the `epoll_ctl` calls that the
-- poller makes for it, and afterwards the interest list holds exactly the channel's events if its
-- index is kAdded and nothing of it otherwise; the poller's map holds it unless its index is kNew.
pub apply_all-Agrees :
    (xs : List Change) (m : ChannelMap) (c : Channel) (k : Option EventMask)
    → Agrees m c k
    → (k' : Option EventMask) × (ctl_all (apply_all xs m c).calls k ≡ some k')
      × Agrees (apply_all xs m c).channels (apply_all xs m c).channel k'
unfolding apply_all
apply_all-Agrees [] m c k a = (k, refl, a)
apply_all-Agrees (x ∷ xs) m c k a =
    let u : Update = apply x m c in
    let s : Accepted u k = apply-Accepted x m c k a in
    let (k', e, b) = apply_all-Agrees xs u.channels u.channel s.after s.agrees in
    (k', ctl_all-append u.calls (apply_all xs u.channels u.channel).calls k s.after s.runs ∙ e, b)

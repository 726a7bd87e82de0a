-- ===== src/Channels.antt =====
-- src/state.rs: the map from users to the broadcast channels of their connections. The channels of
-- tokio are a parameter. A function is the sequence of what it does under each lock.
pub mod Delivery
mod Examples
use any_player_sync_server.Prelude.{
  ℕ, suc, ◌-◌, ◌≡◌, Bool, true, false, not, ◌&&◌, Option, none, some, List, [], ◌∷◌, ltb, ◌==◌,
  if◌then◌else◌,
}
use any_player_sync_server.Models.{UpdateEvent}

-- tokio::sync::broadcast: a sender with the receivers that are subscribed to it. `send` fails if
-- and only if there is no receiver.
pub record Broadcast : Type 1 where
  pub Sender : Type 0
  pub channel : Sender
  pub subscribe : Sender → Sender
  -- a receiver is dropped
  pub unsubscribe : Sender → Sender
  pub receiver_count : Sender → ℕ
  pub send : UpdateEvent → Sender → Bool × Sender
  pub channel_count : receiver_count channel ≡ 0
  pub subscribe_count : (s : Sender) → receiver_count (subscribe s) ≡ suc (receiver_count s)
  pub unsubscribe_count : (s : Sender) → receiver_count (unsubscribe s) ≡ receiver_count s - 1
  pub send_result : (e : UpdateEvent) (s : Sender) → (send e s).0 ≡ ltb 0 (receiver_count s)
  pub send_count : (e : UpdateEvent) (s : Sender) → receiver_count (send e s).1 ≡ receiver_count s

-- What can happen between the two locks of a call: any other task's turn under a lock, and the
-- end of a connection.
pub data Turn : Type 0 where
  subscribe_turn clean_up_turn : ℕ → Turn
  drop_turn : ℕ → Turn
  send_turn : ℕ → UpdateEvent → Turn

module _ (b : Broadcast) where
  abbrev pub Channels : Type 0
  Channels = List (ℕ × b.Sender)

  -- HashMap::get
  unfoldable pub lookup : ℕ → Channels → Option b.Sender
  lookup user [] = none
  lookup user ((v, s) ∷ rest) = let later = lookup user rest in if v == user then some s else later

  -- A change of the entry of a user, if there is one.
  unfoldable pub change : ℕ → (b.Sender → b.Sender) → Channels → Channels
  change user f [] = []
  change user f ((v, s) ∷ rest) =
      let later = change user f rest in if v == user then (v, f s) ∷ rest else (v, s) ∷ later

  -- HashMap::remove
  unfoldable pub remove : ℕ → Channels → Channels
  remove user [] = []
  remove user ((v, s) ∷ rest) =
      let later = remove user rest in if v == user then later else (v, s) ∷ later

  abbrev subscribe_or_insert : ℕ → Option b.Sender → Channels → Channels
  subscribe_or_insert user none map = (user, b.subscribe b.channel) ∷ map
  subscribe_or_insert user (some s) map = change user b.subscribe map

  -- Under the write lock; the receiver is what `subscribe` adds.
  unfoldable pub subscribe_user : ℕ → Channels → Channels
  unfolding lookup change
  subscribe_user user map = subscribe_or_insert user (lookup user map) map

  abbrev try_send : ℕ → UpdateEvent → Option b.Sender → Channels → Bool × Channels
  try_send user event none map = (false, map)
  try_send user event (some s) map = (
    not (b.send event s).0 && b.receiver_count (b.send event s).1 == 0,
    change user (λ t. (b.send event t).1) map,
  )

  -- send_user_event under the read lock: whether the entry is stale.
  unfoldable pub send_to_channel : ℕ → UpdateEvent → Channels → Bool × Channels
  unfolding lookup change
  send_to_channel user event map = try_send user event (lookup user map) map

  abbrev remove_stale : ℕ → Option b.Sender → Channels → Channels
  remove_stale user none map = map
  remove_stale user (some s) map = if b.receiver_count s == 0 then remove user map else map

  -- send_user_event under the write lock.
  unfoldable pub clean_up : ℕ → Channels → Channels
  unfolding lookup remove
  clean_up user map = remove_stale user (lookup user map) map

  -- Both, with nothing between them.
  unfoldable pub send_user_event : ℕ → UpdateEvent → Channels → Channels
  unfolding send_to_channel clean_up
  send_user_event user event map =
      let (should_cleanup, sent) = send_to_channel user event map in
      if should_cleanup then clean_up user sent else sent

  unfoldable pub turn : Turn → Channels → Channels
  unfolding subscribe_user send_to_channel clean_up change
  turn (subscribe_turn user) map = subscribe_user user map
  turn (clean_up_turn user) map = clean_up user map
  turn (drop_turn user) map = change user b.unsubscribe map
  turn (send_turn user event) map = (send_to_channel user event map).1

  abbrev pub turns : List Turn → Channels → Channels
  turns [] map = map
  turns (t ∷ ts) map = turns ts (turn t map)
